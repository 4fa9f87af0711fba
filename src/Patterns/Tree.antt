-- ===== src/Patterns/Tree.antt =====
-- packages/patterns/src/internal/tree.ts: trees whose nodes keep the size of what is below them.
pub mod Laws
pub mod Equality
use effect_native.Prelude.{
  ℕ, zero, suc, ◌+◌, ◌==◌, Bool, true, false, ◌&&◌, List, [], ◌∷◌, ◌++◌, if◌then◌else◌,
}

mutual
  -- A value, the children and the size.
  pub data Tree {ℓ} (A : Type ℓ) : Type ℓ where
    tree : A → Trees A → ℕ → Tree A

  -- An array of children.
  pub data Trees {ℓ} (A : Type ℓ) : Type ℓ where
    no_trees : Trees A
    more_trees : Tree A → Trees A → Trees A

module _ {ℓ} {A : Type ℓ} where
  abbrev pub value : Tree A → A
  value (tree v ts n) = v

  abbrev pub children : Tree A → Trees A
  children (tree v ts n) = ts

  abbrev pub size : Tree A → ℕ
  size (tree v ts n) = n

  abbrev pub trees_length : Trees A → ℕ
  trees_length no_trees = 0
  trees_length (more_trees t ts) = suc (trees_length ts)

  -- `calculateSize`, from the size so far.
  unfoldable pub calculate_size : ℕ → Trees A → ℕ
  calculate_size acc no_trees = acc
  calculate_size acc (more_trees t ts) = calculate_size (acc + size t) ts

  unfoldable pub make : A → Trees A → Tree A
  unfolding calculate_size
  make v ts = tree v ts (calculate_size 1 ts)

  unfoldable pub of : A → Tree A
  unfolding make
  of v = make v no_trees

  -- `self.children.concat(child)`
  unfoldable pub concat : Trees A → Tree A → Trees A
  concat no_trees child = more_trees child no_trees
  concat (more_trees t ts) child = more_trees t (concat ts child)

  unfoldable pub append_child : Tree A → Tree A → Tree A
  unfolding concat make
  append_child self child = make (value self) (concat (children self) child)

  unfoldable mutual
    pub to_array : Tree A → List A
    to_array (tree v ts n) = v ∷ trees_array ts

    pub trees_array : Trees A → List A
    trees_array no_trees = []
    trees_array (more_trees t ts) = to_array t ++ trees_array ts

  unfoldable mutual
    pub equals_tree : (A → A → Bool) → Tree A → Tree A → Bool
    equals_tree equals (tree v ts n) (tree w us m) =
        if (n == m) && (trees_length ts == trees_length us)
        then equals v w && equals_trees equals ts us
        else false

    -- The loop over the children, which are as many on both sides.
    pub equals_trees : (A → A → Bool) → Trees A → Trees A → Bool
    equals_trees equals no_trees us = true
    equals_trees equals (more_trees t ts) no_trees = false
    equals_trees equals (more_trees t ts) (more_trees u us) =
        equals_tree equals t u && equals_trees equals ts us

module _ {ℓ κ} {A : Type ℓ} {B : Type κ} where
  unfoldable mutual
    unfolding make

    pub map_tree : Tree A → (A → B) → Tree B
    map_tree (tree v ts n) f = make (f v) (map_trees ts f)

    pub map_trees : Trees A → (A → B) → Trees B
    map_trees no_trees f = no_trees
    map_trees (more_trees t ts) f = more_trees (map_tree t f) (map_trees ts f)

  unfoldable mutual
    pub reduce : Tree A → B → (B → A → B) → B
    reduce (tree v ts n) initial f = reduce_trees ts (f initial v) f

    pub reduce_trees : Trees A → B → (B → A → B) → B
    reduce_trees no_trees acc f = acc
    reduce_trees (more_trees t ts) acc f = reduce_trees ts (reduce t acc f) f

module _ {ℓ} {A : Type ℓ} where
  unfoldable mutual
    -- `hashTree`, over the hash of numbers and of values and the combination of hashes.
    pub hash_tree : (ℕ → ℕ) → (A → ℕ) → (ℕ → ℕ → ℕ) → Tree A → ℕ
    hash_tree hash_number hash combine (tree v ts n) =
        hash_trees hash_number hash combine (combine (hash v) (hash_number n)) ts

    pub hash_trees : (ℕ → ℕ) → (A → ℕ) → (ℕ → ℕ → ℕ) → ℕ → Trees A → ℕ
    hash_trees hash_number hash combine acc no_trees = acc
    hash_trees hash_number hash combine acc (more_trees t ts) =
        hash_trees hash_number hash combine (combine (hash_tree hash_number hash combine t) acc) ts

  unfoldable mutual
    -- The calls that `traverseEffect` makes of its effect, in their order.
    pub traverse_effect : Tree A → List ℕ → List (A × List ℕ)
    traverse_effect (tree v ts n) path = (v, path) ∷ traverse_children ts path 0

    pub traverse_children : Trees A → List ℕ → ℕ → List (A × List ℕ)
    traverse_children no_trees path i = []
    traverse_children (more_trees t ts) path i =
        traverse_effect t (path ++ (i ∷ [])) ++ traverse_children ts path (suc i)

  unfoldable pub for_each_effect : Tree A → List (A × List ℕ)
  unfolding traverse_effect
  for_each_effect self = traverse_effect self (0 ∷ [])
