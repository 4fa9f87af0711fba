-- ===== src/Patterns/Tree/Equality.antt =====
-- The test of equality of packages/patterns/src/internal/tree.ts.
use mathlib.Core.Path.{subst}
use effect_native.Prelude.{
  ℕ, ◌==◌, ==_iff, ◌≡◌, refl, ◌↔◌, Bool, true, false, ◌&&◌, if◌then◌else◌, arith,
}
use effect_native.Patterns.Tree.{
  Tree, tree, Trees, no_trees, more_trees, trees_length, equals_tree, equals_trees,
}

four_tests :
    (a b c d : Bool)
    → (if a && b then c && d else false) ≡ true
    → (a ≡ true) × (b ≡ true) × (c ≡ true) × (d ≡ true)
four_tests true true true true h = (refl, refl, refl, refl)
four_tests true true true false h = cc
four_tests true true false d h = cc
four_tests true false c d h = cc
four_tests false b c d h = cc

two_tests : (a b : Bool) → (a && b) ≡ true → (a ≡ true) × (b ≡ true)
two_tests true true h = (refl, refl)
two_tests true false h = cc
two_tests false b h = cc

equal_refl : (n : ℕ) → (n == n) ≡ true
equal_refl n = (==_iff n n).1 refl

module _ {ℓ} {A : Type ℓ} (equals : A → A → Bool) where
  mutual
    unfolding equals_tree

    sound_tree :
        ((x y : A) → equals x y ≡ true → x ≡ y)
        → (t u : Tree A) → equals_tree equals t u ≡ true
        → t ≡ u
    sound_tree sound (tree v ts n) (tree w us m) h =
        let (hn, hl, hv, hs) =
          four_tests (n == m) (trees_length ts == trees_length us) (equals v w)
            (equals_trees equals ts us) h in
        let e = sound v w hv in
        let es = sound_trees sound ts us ((==_iff _ _).0 hl) hs in let en = (==_iff n m).0 hn in cc

    sound_trees :
        ((x y : A) → equals x y ≡ true → x ≡ y)
        → (ts us : Trees A) → trees_length ts ≡ trees_length us
        → equals_trees equals ts us ≡ true
        → ts ≡ us
    sound_trees sound no_trees no_trees l h = refl
    sound_trees sound no_trees (more_trees u us) l h = ground (arith, l)
    sound_trees sound (more_trees t ts) no_trees l h = ground (arith, l)
    sound_trees sound (more_trees t ts) (more_trees u us) l h =
        let (ht, hs) = two_tests (equals_tree equals t u) (equals_trees equals ts us) h in
        let e = sound_tree sound t u ht in
        let es = sound_trees sound ts us (omega (arith, l)) hs in cc

  mutual
    unfolding equals_tree

    complete_tree : ((x : A) → equals x x ≡ true) → (t : Tree A) → equals_tree equals t t ≡ true
    complete_tree h (tree v ts n) =
        rw (equal_refl n, equal_refl (trees_length ts), h v) (complete_trees h ts)

    complete_trees :
        ((x : A) → equals x x ≡ true) → (ts : Trees A) → equals_trees equals ts ts ≡ true
    complete_trees h no_trees = refl
    complete_trees h (more_trees t ts) = rw (complete_tree h t) (complete_trees h ts)

  -- If the test of values decides equality, then so does the test of trees.
  pub equals_tree_lem :
      ((x y : A) → (equals x y ≡ true) ↔ (x ≡ y))
      → (t u : Tree A) → (equals_tree equals t u ≡ true) ↔ (t ≡ u)
  equals_tree_lem h t u = (
    sound_tree (λ x y. (h x y).0) t u,
    λ e. subst (λ x. equals_tree equals t x ≡ true) e (complete_tree (λ x. (h x x).1 refl) t),
  )
