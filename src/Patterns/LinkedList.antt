-- ===== src/Patterns/LinkedList.antt =====
-- packages/patterns/src/internal/list.ts: linked lists whose nodes keep their size.
pub mod Laws
use effect_native.Prelude.{
  ℕ, zero, suc, ◌+◌, ◌==◌, Bool, true, false, not, ◌&&◌, List, [], ◌∷◌, ◌++◌, if◌then◌else◌,
}

-- The size is a field of a node, whatever its tail is.
pub data Linked {ℓ} (A : Type ℓ) : Type ℓ where
  empty : Linked A
  node : ℕ → A → Linked A → Linked A

module _ {ℓ} {A : Type ℓ} where
  abbrev pub is_empty : Linked A → Bool
  is_empty empty = true
  is_empty (node n x xs) = false

  abbrev pub size : Linked A → ℕ
  size empty = 0
  size (node n x xs) = n

  unfoldable pub make_node : A → Linked A → Linked A
  make_node value tail = node (size tail + 1) value tail

  unfoldable pub cons : Linked A → A → Linked A
  unfolding make_node
  cons self value = make_node value self

  -- The loop of `reverse`, from the result so far.
  unfoldable pub reverse_onto : Linked A → Linked A → Linked A
  unfolding make_node
  reverse_onto result empty = result
  reverse_onto result (node n x xs) = reverse_onto (make_node x result) xs

  unfoldable pub reverse : Linked A → Linked A
  unfolding reverse_onto
  reverse self = reverse_onto empty self

  -- The loop of `fromIterable`.
  unfoldable pub push_all : Linked A → List A → Linked A
  unfolding make_node
  push_all result [] = result
  push_all result (value ∷ values) = push_all (make_node value result) values

  unfoldable pub from_iterable : List A → Linked A
  unfolding push_all reverse
  from_iterable iterable = reverse (push_all empty iterable)

  -- The elements that the loop along the tails gives, as in `toArray` and the iterator.
  unfoldable pub to_array : Linked A → List A
  to_array empty = []
  to_array (node n x xs) = x ∷ to_array xs

  unfoldable pub append : Linked A → A → Linked A
  unfolding to_array from_iterable make_node
  append self value =
      if is_empty self then make_node value empty else from_iterable (to_array self ++ (value ∷ []))

  -- The loop of `equalsList`; after it, `left.isEmpty === right.isEmpty`.
  unfoldable pub equals_from : (A → A → Bool) → Linked A → Linked A → Bool
  equals_from equals empty right = is_empty right
  equals_from equals (node n x left) empty = false
  equals_from equals (node n x left) (node m y right) = equals x y && equals_from equals left right

  unfoldable pub equals_list : (A → A → Bool) → Linked A → Linked A → Bool
  unfolding equals_from
  equals_list equals self that =
      if size self == size that then equals_from equals self that else false

  -- `hashList`, over the hash of the elements and the combination of hashes.
  unfoldable pub hash_from : (A → ℕ) → (ℕ → ℕ → ℕ) → ℕ → Linked A → ℕ
  hash_from hash combine acc empty = acc
  hash_from hash combine acc (node n x xs) = hash_from hash combine (combine (hash x) acc) xs

  unfoldable pub hash_list : (ℕ → ℕ) → (A → ℕ) → (ℕ → ℕ → ℕ) → Linked A → ℕ
  unfolding hash_from
  hash_list hash_number hash combine self = hash_from hash combine (hash_number (size self)) self

module _ {ℓ κ} {A : Type ℓ} {B : Type κ} where
  -- `Array.prototype.map`, with the index from `i`.
  abbrev pub map_index : ℕ → (A → ℕ → B) → List A → List B
  map_index i f [] = []
  map_index i f (x ∷ xs) = f x i ∷ map_index (suc i) f xs

  unfoldable pub map_list : Linked A → (A → ℕ → B) → Linked B
  unfolding to_array from_iterable
  map_list self f = from_iterable (map_index 0 f (to_array self))

  unfoldable pub reduce_from : ℕ → (B → A → ℕ → B) → B → Linked A → B
  reduce_from index f acc empty = acc
  reduce_from index f acc (node n x xs) = reduce_from (suc index) f (f acc x index) xs

  unfoldable pub reduce : Linked A → B → (B → A → ℕ → B) → B
  unfolding reduce_from
  reduce self initial f = reduce_from 0 f initial self

module _ {ℓ} {A : Type ℓ} where
  -- The calls that `forEachEffect` makes of its effect, in their order, from the index `index`.
  unfoldable pub for_each_effect : ℕ → Linked A → List (A × ℕ)
  for_each_effect index empty = []
  for_each_effect index (node n x xs) = (x, index) ∷ for_each_effect (suc index) xs
