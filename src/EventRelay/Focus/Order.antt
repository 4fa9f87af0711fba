-- ===== src/EventRelay/Focus/Order.antt =====
-- The sort of the focusable elements keeps them and puts them into document order.
use effect_native.Prelude.{
  ℕ, ◌+◌, ◌≡◌, refl, Bool, true, false, not, ◌&&◌, List, [], ◌∷◌, ◌++◌, all, member, Bool-cases,
  inl, inr, if◌then◌else◌, arith,
}
use effect_native.EventRelay.Focus.{precedes, insert_sorted, sort_by_order}

-- How many elements pass a test.
abbrev pub count : (ℕ → Bool) → List ℕ → ℕ
count p [] = 0
count p (x ∷ xs) = (if p x then 1 else 0) + count p xs

pub count-append : (p : ℕ → Bool) (xs ys : List ℕ) → count p (xs ++ ys) ≡ count p xs + count p ys
count-append p [] ys = omega arith
count-append p (x ∷ xs) ys = omega (arith, count-append p xs ys)

pub count-sort_by_order :
    (p : ℕ → Bool) (order xs : List ℕ) → count p (sort_by_order order xs) ≡ count p xs
unfolding sort_by_order
count-sort_by_order p order [] = refl
count-sort_by_order p order (x ∷ xs) =
    omega (arith, inserted (sort_by_order order xs), count-sort_by_order p order xs)
  where
    inserted :
        (ys : List ℕ) → count p (insert_sorted order x ys) ≡ (if p x then 1 else 0) + count p ys
    inserted [] = refl
    inserted (y ∷ ys) = ground (arith, inserted ys)

all-insert_sorted :
    (p : ℕ → Bool) (order : List ℕ) (el : ℕ) (xs : List ℕ)
    → all p (insert_sorted order el xs) ≡ (p el && all p xs)
unfolding insert_sorted
all-insert_sorted p order el [] = refl
all-insert_sorted p order el (x ∷ xs) = ground (arith, all-insert_sorted p order el xs)

pub all-sort_by_order :
    (p : ℕ → Bool) (order xs : List ℕ) → all p (sort_by_order order xs) ≡ all p xs
unfolding sort_by_order
all-sort_by_order p order [] = refl
all-sort_by_order p order (x ∷ xs) =
    ground
      (arith, all-insert_sorted p order x (sort_by_order order xs), all-sort_by_order p order xs)

member_of_precedes : (order : List ℕ) (a b : ℕ) → precedes order a b ≡ true → member b order ≡ true
unfolding precedes
member_of_precedes [] a b h = cc
member_of_precedes (x ∷ order) a b h = ground (arith, member_of_precedes order a b)

precedes_asymm : (order : List ℕ) (a b : ℕ) → precedes order a b ≡ true → precedes order b a ≡ false
unfolding precedes
precedes_asymm [] a b h = refl
precedes_asymm (x ∷ order) a b h = ground (arith, precedes_asymm order a b)

precedes_trans :
    (order : List ℕ) (a b c : ℕ)
    → precedes order a b ≡ true
    → precedes order b c ≡ true
    → precedes order a c ≡ true
unfolding precedes
precedes_trans [] a b c h k = h
precedes_trans (x ∷ order) a b c h k =
    ground (arith, member_of_precedes order b c, precedes_trans order a b c)

-- Nothing that stands behind an element precedes it in the document.
abbrev pub IsSorted : List ℕ → List ℕ → Type 0
IsSorted order [] = Unit
IsSorted order (x ∷ xs) = (all (λ y. not (precedes order y x)) xs ≡ true) × IsSorted order xs

all_weaken :
    (order : List ℕ) (a b : ℕ) (xs : List ℕ)
    → precedes order a b ≡ true
    → all (λ y. not (precedes order y b)) xs ≡ true
    → all (λ y. not (precedes order y a)) xs ≡ true
all_weaken order a b [] h k = refl
all_weaken order a b (x ∷ xs) h k =
    ground (arith, precedes_trans order x a b, all_weaken order a b xs)

insert_sorted-IsSorted :
    (order : List ℕ) (el : ℕ) (xs : List ℕ)
    → IsSorted order xs
    → IsSorted order (insert_sorted order el xs)
unfolding insert_sorted
insert_sorted-IsSorted order el [] h = (refl, tt)
insert_sorted-IsSorted order el (x ∷ xs) h = elim (Bool-cases (precedes order el x)) [
  | inl before ↦
      rw before ((ground (arith, precedes_asymm order el x, all_weaken order el x xs), h))
  | inr behind ↦ rw behind (
      (
        ground (arith, all-insert_sorted (λ y. not (precedes order y x)) order el xs),
        insert_sorted-IsSorted order el xs h.1,
      ))
]

pub sort_by_order-IsSorted : (order xs : List ℕ) → IsSorted order (sort_by_order order xs)
unfolding sort_by_order
sort_by_order-IsSorted order [] = tt
sort_by_order-IsSorted order (x ∷ xs) =
    insert_sorted-IsSorted order x _ (sort_by_order-IsSorted order xs)
