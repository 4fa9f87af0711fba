-- ===== src/EventRelay/Words/Laws.antt =====
-- What the two word boundaries are, for every text.
use effect_native.Prelude.{
  ℕ, zero, suc, ◌+◌, ◌-◌, ◌≤◌, ◌<◌, ◌≡◌, refl, ◌⊎◌, inl, inr, Bool, true, false, some, [], ◌∷◌,
  Text, length, get_elem?, is_space, not_space, Option-cases, arith,
}
use effect_native.EventRelay.Words.{
  test_at, back_while, forward_while, find_word_boundary_backward, find_word_boundary_forward,
}

-- Every position from `i` up to `j` passes the test.
abbrev pub Between : (ℕ → Bool) → Text → ℕ → ℕ → Type 0
Between p str i j = (k : ℕ) → i ≤ k → k < j → test_at p str k ≡ true

-- The run of positions that pass the test starts at `i`.
abbrev pub StartsAt : (ℕ → Bool) → Text → ℕ → Type 0
StartsAt p str i = (i ≡ 0) ⊎ (test_at p str (i - 1) ≡ false)

module _ (p : ℕ → Bool) (str : Text) where
  pub back_while-le : (n : ℕ) → back_while p str n ≤ n
  unfolding back_while
  back_while-le zero = omega arith
  back_while-le (suc n) = ground (arith, back_while-le n)

  pub back_while-Between : (n : ℕ) → Between p str (back_while p str n) n
  unfolding back_while
  back_while-Between zero k h l = absurd (omega arith)
  back_while-Between (suc n) k h l = ground (arith, back_while-Between n k)

  pub back_while-StartsAt : (n : ℕ) → StartsAt p str (back_while p str n)
  unfolding back_while
  back_while-StartsAt zero = inl refl
  back_while-StartsAt (suc n) = ground (arith, back_while-StartsAt n)

  pub forward_while-bounds :
      (rounds pos : ℕ)
      → (pos ≤ forward_while p str rounds pos) × (forward_while p str rounds pos ≤ pos + rounds)
  unfolding forward_while
  forward_while-bounds zero pos = omega arith
  forward_while-bounds (suc rounds) pos = ground (arith, forward_while-bounds rounds (suc pos))

  pub forward_while-Between : (rounds pos : ℕ) → Between p str pos (forward_while p str rounds pos)
  unfolding forward_while
  forward_while-Between zero pos k h l = absurd (omega arith)
  forward_while-Between (suc rounds) pos k h l =
      ground (arith, forward_while-Between rounds (suc pos) k)

lt-length_of_get_elem? : (str : Text) (k c : ℕ) → get_elem? str k ≡ some c → k < length str
lt-length_of_get_elem? [] k c h = cc
lt-length_of_get_elem? (x ∷ str) zero c h = omega arith
lt-length_of_get_elem? (x ∷ str) (suc k) c h = omega (arith, lt-length_of_get_elem? str k c h)

test_at-lt : (p : ℕ → Bool) (str : Text) (k : ℕ) → test_at p str k ≡ true → k < length str
unfolding test_at
test_at-lt p str k h = elim (Option-cases (get_elem? str k)) [
  | inl e ↦ ground arith
  | inr (c, e) ↦ lt-length_of_get_elem? str k c e
]

module _ (p : ℕ → Bool) (str : Text) where
  -- With a round for each character left, the loop stops because its test fails.
  pub forward_while-stops :
      (rounds pos : ℕ)
      → length str ≤ pos + rounds
      → test_at p str (forward_while p str rounds pos) ≡ false
  unfolding forward_while
  forward_while-stops zero pos h = ground (arith, test_at-lt p str pos)
  forward_while-stops (suc rounds) pos h = ground (arith, forward_while-stops rounds (suc pos))

  -- It never runs past the end of the text.
  pub forward_while-le :
      (rounds pos : ℕ) → pos ≤ length str → forward_while p str rounds pos ≤ length str
  unfolding forward_while
  forward_while-le zero pos h = h
  forward_while-le (suc rounds) pos h =
      ground (arith, test_at-lt p str pos, forward_while-le rounds (suc pos))

-- From `i` a maximal word runs up to `gap`, and from there white space runs to the end.
pub record IsWordStart (str : Text) (i : ℕ) : Type 0 where
  pub gap : ℕ
  pub ordered : i ≤ gap
  pub within : gap ≤ length str
  pub word : Between not_space str i gap
  pub spaces : Between is_space str gap (length str)
  pub word_start : StartsAt not_space str i
  pub gap_start : StartsAt is_space str gap

-- White space runs up to `start`, and from there a maximal word runs up to `i`.
pub record IsWordEnd (str : Text) (i : ℕ) : Type 0 where
  pub start : ℕ
  pub ordered : start ≤ i
  pub within : i ≤ length str
  pub spaces : Between is_space str 0 start
  pub word : Between not_space str start i
  pub word_begins : test_at is_space str start ≡ false
  pub word_ends : test_at not_space str i ≡ false

-- For every text, `findWordBoundaryBackward` returns the start of the maximal word that only white
-- space follows, that white space being maximal too.
pub find_word_boundary_backward_lem :
    (str : Text) → IsWordStart str (find_word_boundary_backward str)
unfolding find_word_boundary_backward
find_word_boundary_backward_lem str =
    let gap = back_while is_space str (length str) in
    record {
      gap = gap;
      ordered = back_while-le not_space str gap;
      within = back_while-le is_space str (length str);
      word = back_while-Between not_space str gap;
      spaces = back_while-Between is_space str (length str);
      word_start = back_while-StartsAt not_space str gap;
      gap_start = back_while-StartsAt is_space str (length str);
    }

-- For every text, `findWordBoundaryForward` skips the white space at the front and returns the end of
-- the maximal word behind it; the white space behind that word is not skipped.
pub find_word_boundary_forward_lem : (str : Text) → IsWordEnd str (find_word_boundary_forward str)
unfolding find_word_boundary_forward
find_word_boundary_forward_lem str =
    let n = length str in
    let start = forward_while is_space str n 0 in
    record {
      start = start;
      ordered = (forward_while-bounds not_space str n start).0;
      within =
          forward_while-le not_space str n start (forward_while-le is_space str n 0 (omega arith));
      spaces = forward_while-Between is_space str n 0;
      word = forward_while-Between not_space str n start;
      word_begins = forward_while-stops is_space str n 0 (omega arith);
      word_ends = forward_while-stops not_space str n start (omega arith);
    }

pub find_word_boundary_backward-le : (str : Text) → find_word_boundary_backward str ≤ length str
find_word_boundary_backward-le str =
    let w = find_word_boundary_backward_lem str in omega (arith, w.ordered, w.within)

pub find_word_boundary_forward-le : (str : Text) → find_word_boundary_forward str ≤ length str
find_word_boundary_forward-le str = (find_word_boundary_forward_lem str).within
