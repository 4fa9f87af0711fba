-- ===== src/Patterns/LinkedList/Laws.antt =====
-- The linked lists of packages/patterns/src/internal/list.ts against arrays.
use effect_native.Prelude.{
  ℕ, suc, ◌+◌, ◌==◌, ◌≡◌, refl, ap, ◌∙◌, sym, Bool, Bool-cases, inl, inr, true, false, ◌&&◌, List,
  [], ◌∷◌, ◌++◌, length, length-append, arith,
}
use effect_native.Patterns.LinkedList.{
  Linked, empty, node, size, make_node, reverse_onto, reverse, push_all, from_iterable, to_array,
  append, equals_from, equals_list, map_index, map_list, reduce_from, reduce,
}
use mathlib.Core.List.{append-nil}

-- Two arrays with equal elements in the same places.
abbrev pub array_equals {ℓ} : {A : Type ℓ} → (A → A → Bool) → List A → List A → Bool
array_equals equals [] [] = true
array_equals equals [] (y ∷ ys) = false
array_equals equals (x ∷ xs) [] = false
array_equals equals (x ∷ xs) (y ∷ ys) = equals x y && array_equals equals xs ys

-- `Array.prototype.reduce`, with the index from `i`.
abbrev pub array_reduce {ℓ κ} : {A : Type ℓ} {B : Type κ} → ℕ → (B → A → ℕ → B) → B → List A → B
array_reduce i f acc [] = acc
array_reduce i f acc (x ∷ xs) = array_reduce (suc i) f (f acc x i) xs

abbrev reversed {ℓ} : {A : Type ℓ} → List A → List A → List A
reversed acc [] = acc
reversed acc (x ∷ xs) = reversed (x ∷ acc) xs

module _ {ℓ} {A : Type ℓ} where
  -- Every node keeps the number of its elements.
  abbrev pub IsSized : Linked A → Type 0
  IsSized empty = Unit
  IsSized (node n x xs) = (n ≡ size xs + 1) × IsSized xs

  pub size_lem : (l : Linked A) → IsSized l → size l ≡ length (to_array l)
  unfolding to_array
  size_lem empty h = refl
  size_lem (node n x xs) (h, k) = omega (arith, h, size_lem xs k)

  make_node-IsSized : (x : A) (l : Linked A) → IsSized l → IsSized (make_node x l)
  unfolding make_node
  make_node-IsSized x l h = (refl, h)

  push_all-IsSized : (l : Linked A) (xs : List A) → IsSized l → IsSized (push_all l xs)
  unfolding push_all
  push_all-IsSized l [] h = h
  push_all-IsSized l (x ∷ xs) h = push_all-IsSized (make_node x l) xs (make_node-IsSized x l h)

  reverse_onto-IsSized : (l m : Linked A) → IsSized l → IsSized (reverse_onto l m)
  unfolding reverse_onto
  reverse_onto-IsSized l empty h = h
  reverse_onto-IsSized l (node n x m) h =
      reverse_onto-IsSized (make_node x l) m (make_node-IsSized x l h)

  to_array-push_all :
      (l : Linked A) (xs : List A) → to_array (push_all l xs) ≡ reversed (to_array l) xs
  unfolding push_all to_array make_node
  to_array-push_all l [] = refl
  to_array-push_all l (x ∷ xs) = to_array-push_all (make_node x l) xs

  to_array-reverse_onto :
      (l m : Linked A) → to_array (reverse_onto l m) ≡ reversed (to_array l) (to_array m)
  unfolding reverse_onto to_array make_node
  to_array-reverse_onto l empty = refl
  to_array-reverse_onto l (node n x m) = to_array-reverse_onto (make_node x l) m

  reversed-reversed : (xs acc ys : List A) → reversed ys (reversed acc xs) ≡ reversed (xs ++ ys) acc
  reversed-reversed [] acc ys = refl
  reversed-reversed (x ∷ xs) acc ys = reversed-reversed xs (x ∷ acc) ys

  -- An array made into a list and back is the same array.
  pub to_array-from_iterable : (xs : List A) → to_array (from_iterable xs) ≡ xs
  unfolding from_iterable reverse to_array
  to_array-from_iterable xs =
      to_array-reverse_onto empty (push_all empty xs)
      ∙ ap (reversed []) (to_array-push_all empty xs)
      ∙ reversed-reversed xs [] []
      ∙ append-nil xs

  pub from_iterable-IsSized : (xs : List A) → IsSized (from_iterable xs)
  unfolding from_iterable reverse
  from_iterable-IsSized xs = reverse_onto-IsSized empty (push_all empty xs) tt

  to_array-reverse : (l : Linked A) → to_array (reverse l) ≡ reversed [] (to_array l)
  unfolding reverse to_array
  to_array-reverse l = to_array-reverse_onto empty l

  -- A list reversed twice has the elements of the list in their order.
  pub reverse-reverse : (l : Linked A) → to_array (reverse (reverse l)) ≡ to_array l
  reverse-reverse l =
      to_array-reverse (reverse l)
      ∙ ap (reversed []) (to_array-reverse l)
      ∙ reversed-reversed (to_array l) [] []
      ∙ append-nil (to_array l)

  pub to_array-append : (l : Linked A) (x : A) → to_array (append l x) ≡ to_array l ++ (x ∷ [])
  unfolding append to_array make_node
  to_array-append empty x = refl
  to_array-append (node n y l) x = to_array-from_iterable (y ∷ (to_array l ++ (x ∷ [])))

  pub append-IsSized : (l : Linked A) (x : A) → IsSized l → IsSized (append l x)
  unfolding append make_node
  append-IsSized empty x h = (refl, tt)
  append-IsSized (node n y l) x h = from_iterable-IsSized (to_array (node n y l) ++ (x ∷ []))

  -- On a list whose nodes keep their sizes, appending keeps the sizes right, makes the list one longer
  -- and puts the element last.
  pub append_lem :
      (l : Linked A) (x : A)
      → IsSized l
      → IsSized (append l x)
        × (size (append l x) ≡ size l + 1)
        × (to_array (append l x) ≡ to_array l ++ (x ∷ []))
  append_lem l x h = (
    append-IsSized l x h,
    size_lem (append l x) (append-IsSized l x h)
        ∙ ap length (to_array-append l x)
        ∙ length-append (to_array l) (x ∷ [])
        ∙ sym (ap (λ n. n + 1) (size_lem l h)),
    to_array-append l x,
  )

  equals_from_lem :
      (equals : A → A → Bool) (l m : Linked A)
      → equals_from equals l m ≡ array_equals equals (to_array l) (to_array m)
  unfolding equals_from to_array
  equals_from_lem equals empty empty = refl
  equals_from_lem equals empty (node n y m) = refl
  equals_from_lem equals (node n x l) empty = refl
  equals_from_lem equals (node n x l) (node k y m) =
      ap (λ b. equals x y && b) (equals_from_lem equals l m)

  array_equals-length :
      (equals : A → A → Bool) (xs ys : List A)
      → (length xs == length ys) ≡ false
      → array_equals equals xs ys ≡ false
  array_equals-length equals [] [] h = ground (arith, h)
  array_equals-length equals [] (y ∷ ys) h = refl
  array_equals-length equals (x ∷ xs) [] h = refl
  array_equals-length equals (x ∷ xs) (y ∷ ys) h =
      ground (arith, h, array_equals-length equals xs ys)

  -- On lists whose nodes keep their sizes, the test of equality, which compares the sizes first, decides
  -- on the elements alone.
  pub equals_list_lem :
      (equals : A → A → Bool) (l m : Linked A)
      → IsSized l
      → IsSized m
      → equals_list equals l m ≡ array_equals equals (to_array l) (to_array m)
  unfolding equals_list
  equals_list_lem equals l m h k = elim (Bool-cases (size l == size m)) [
    | inl e ↦ rw e (equals_from_lem equals l m)
    | inr e ↦ rw e (
        sym (
          array_equals-length equals (to_array l) (to_array m)
            (rw (sym (size_lem l h), sym (size_lem m k)) e)))
  ]

module _ {ℓ κ} {A : Type ℓ} {B : Type κ} where
  pub to_array-map_list :
      (l : Linked A) (f : A → ℕ → B) → to_array (map_list l f) ≡ map_index 0 f (to_array l)
  unfolding map_list
  to_array-map_list l f = to_array-from_iterable (map_index 0 f (to_array l))

  reduce_from_lem :
      (i : ℕ) (f : B → A → ℕ → B) (acc : B) (l : Linked A)
      → reduce_from i f acc l ≡ array_reduce i f acc (to_array l)
  unfolding reduce_from to_array
  reduce_from_lem i f acc empty = refl
  reduce_from_lem i f acc (node n x l) = reduce_from_lem (suc i) f (f acc x i) l

  -- Reducing a list is reducing its array, indices included.
  pub reduce_lem :
      (l : Linked A) (initial : B) (f : B → A → ℕ → B)
      → reduce l initial f ≡ array_reduce 0 f initial (to_array l)
  unfolding reduce
  reduce_lem l initial f = reduce_from_lem 0 f initial l

module _ {ℓ κ μ} {A : Type ℓ} {B : Type κ} {C : Type μ} where
  array_reduce-map_index :
      (i : ℕ) (g : A → ℕ → B) (f : C → B → ℕ → C) (acc : C) (xs : List A)
      → array_reduce i f acc (map_index i g xs) ≡ array_reduce i (λ c x k. f c (g x k) k) acc xs
  array_reduce-map_index i g f acc [] = refl
  array_reduce-map_index i g f acc (x ∷ xs) =
      array_reduce-map_index (suc i) g f (f acc (g x i) i) xs

  -- Reducing a mapped list is reducing the array of the list, each element being mapped on its way, with
  -- its index.
  pub reduce-map_list :
      (l : Linked A) (g : A → ℕ → B) (initial : C) (f : C → B → ℕ → C)
      → reduce (map_list l g) initial f
        ≡ array_reduce 0 (λ c x k. f c (g x k) k) initial (to_array l)
  reduce-map_list l g initial f =
      reduce_lem (map_list l g) initial f
      ∙ ap (array_reduce 0 f initial) (to_array-map_list l g)
      ∙ array_reduce-map_index 0 g f initial (to_array l)
