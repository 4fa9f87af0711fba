-- ===== src/Patterns/Tree/Laws.antt =====
-- The trees of packages/patterns/src/internal/tree.ts against the arrays of their values.
use effect_native.Prelude.{
  ℕ, ◌+◌, ◌≡◌, refl, ap, ◌∙◌, sym, List, [], ◌∷◌, ◌++◌, map, length, length-append, arith,
}
use mathlib.Core.List.{append-nil, map-append, append_assoc}
use effect_native.Patterns.Tree.{
  Tree, tree, Trees, no_trees, more_trees, size, calculate_size, make, concat, append_child,
  to_array, trees_array, map_tree, map_trees, reduce, reduce_trees,
}

module _ {ℓ} {A : Type ℓ} where
  -- Every node keeps the number that `calculateSize` gives for its children.
  abbrev mutual
    pub IsSized : Tree A → Type 0
    IsSized (tree v ts n) = (n ≡ calculate_size 1 ts) × AreSized ts

    pub AreSized : Trees A → Type 0
    AreSized no_trees = Unit
    AreSized (more_trees t ts) = IsSized t × AreSized ts

  mutual
    unfolding to_array calculate_size

    pub size_lem : (t : Tree A) → IsSized t → size t ≡ length (to_array t)
    size_lem (tree v ts n) (h, k) = omega (arith, h, calculate_size_lem 1 ts k)

    calculate_size_lem :
        (acc : ℕ) (ts : Trees A)
        → AreSized ts
        → calculate_size acc ts ≡ acc + length (trees_array ts)
    calculate_size_lem acc no_trees h = omega arith
    calculate_size_lem acc (more_trees t ts) (h, k) = omega (
      arith,
      size_lem t h,
      calculate_size_lem (acc + size t) ts k,
      length-append (to_array t) (trees_array ts),
    )

  concat-AreSized : (ts : Trees A) (t : Tree A) → AreSized ts → IsSized t → AreSized (concat ts t)
  unfolding concat
  concat-AreSized no_trees t h k = (k, tt)
  concat-AreSized (more_trees u ts) t (h, hs) k = (h, concat-AreSized ts t hs k)

  append_child-IsSized : (t u : Tree A) → IsSized t → IsSized u → IsSized (append_child t u)
  unfolding append_child make
  append_child-IsSized (tree v ts n) u (h, hs) k = (refl, concat-AreSized ts u hs k)

  trees_array-concat :
      (ts : Trees A) (t : Tree A) → trees_array (concat ts t) ≡ trees_array ts ++ to_array t
  unfolding concat to_array
  trees_array-concat no_trees t = append-nil (to_array t)
  trees_array-concat (more_trees u ts) t =
      ap (λ l. to_array u ++ l) (trees_array-concat ts t)
      ∙ sym (append_assoc (to_array u) (trees_array ts) (to_array t))

  to_array-append_child : (t u : Tree A) → to_array (append_child t u) ≡ to_array t ++ to_array u
  unfolding append_child make to_array
  to_array-append_child (tree v ts n) u = ap (λ l. v ∷ l) (trees_array-concat ts u)

  -- On trees whose nodes keep their sizes, a child appended keeps the sizes right, adds its size, and
  -- comes last in the order of the values.
  pub append_child_lem :
      (t u : Tree A)
      → IsSized t
      → IsSized u
      → IsSized (append_child t u)
        × (size (append_child t u) ≡ size t + size u)
        × (to_array (append_child t u) ≡ to_array t ++ to_array u)
  append_child_lem t u h k = (
    append_child-IsSized t u h k,
    omega (
      arith,
      size_lem t h,
      size_lem u k,
      size_lem (append_child t u) (append_child-IsSized t u h k),
      ap length (to_array-append_child t u),
      length-append (to_array t) (to_array u),
    ),
    to_array-append_child t u,
  )

module _ {ℓ κ} {A : Type ℓ} {B : Type κ} where
  mutual
    unfolding map_tree make

    map_tree-IsSized : (t : Tree A) (f : A → B) → IsSized (map_tree t f)
    map_tree-IsSized (tree v ts n) f = (refl, map_trees-AreSized ts f)

    map_trees-AreSized : (ts : Trees A) (f : A → B) → AreSized (map_trees ts f)
    map_trees-AreSized no_trees f = tt
    map_trees-AreSized (more_trees t ts) f = (map_tree-IsSized t f, map_trees-AreSized ts f)

  mutual
    unfolding map_tree make to_array

    map_tree_array : (t : Tree A) (f : A → B) → to_array (map_tree t f) ≡ map f (to_array t)
    map_tree_array (tree v ts n) f = ap (λ l. f v ∷ l) (map_trees_array ts f)

    map_trees_array :
        (ts : Trees A) (f : A → B) → trees_array (map_trees ts f) ≡ map f (trees_array ts)
    map_trees_array no_trees f = refl
    map_trees_array (more_trees t ts) f =
        ap (λ l. l ++ trees_array (map_trees ts f)) (map_tree_array t f)
        ∙ ap (λ l. map f (to_array t) ++ l) (map_trees_array ts f)
        ∙ sym (map-append f (to_array t) (trees_array ts))

  -- Mapping a tree keeps the sizes right and maps the values in their order.
  pub map_tree_lem :
      (t : Tree A) (f : A → B)
      → IsSized (map_tree t f) × (to_array (map_tree t f) ≡ map f (to_array t))
  map_tree_lem t f = (map_tree-IsSized t f, map_tree_array t f)

  -- `Array.prototype.reduce`, without the index.
  abbrev pub array_reduce : (B → A → B) → B → List A → B
  array_reduce f acc [] = acc
  array_reduce f acc (x ∷ xs) = array_reduce f (f acc x) xs

  array_reduce-append :
      (f : B → A → B) (acc : B) (xs ys : List A)
      → array_reduce f acc (xs ++ ys) ≡ array_reduce f (array_reduce f acc xs) ys
  array_reduce-append f acc [] ys = refl
  array_reduce-append f acc (x ∷ xs) ys = array_reduce-append f (f acc x) xs ys

  mutual
    unfolding reduce to_array

    reduce_tree :
        (t : Tree A) (initial : B) (f : B → A → B)
        → reduce t initial f ≡ array_reduce f initial (to_array t)
    reduce_tree (tree v ts n) initial f = reduce_trees_lem ts (f initial v) f

    reduce_trees_lem :
        (ts : Trees A) (acc : B) (f : B → A → B)
        → reduce_trees ts acc f ≡ array_reduce f acc (trees_array ts)
    reduce_trees_lem no_trees acc f = refl
    reduce_trees_lem (more_trees t ts) acc f =
        ap (λ b. reduce_trees ts b f) (reduce_tree t acc f)
        ∙ reduce_trees_lem ts (array_reduce f acc (to_array t)) f
        ∙ sym (array_reduce-append f acc (to_array t) (trees_array ts))

  -- Reducing a tree is reducing the array of its values.
  pub reduce_lem :
      (t : Tree A) (initial : B) (f : B → A → B)
      → reduce t initial f ≡ array_reduce f initial (to_array t)
  reduce_lem = reduce_tree
