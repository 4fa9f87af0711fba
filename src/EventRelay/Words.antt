-- ===== src/EventRelay/Words.antt =====
-- The word boundaries of event-relay.ts: `findWordBoundaryBackward`, `findWordBoundaryForward`.
pub mod Laws
use effect_native.Prelude.{
  ℕ, zero, suc, ◌+◌, Bool, true, false, Option, none, some, Text, length, get_elem?, is_space,
  not_space, if◌then◌else◌,
}

-- `pos < str.length && test(str[pos])`
pub test_at : (ℕ → Bool) → Text → ℕ → Bool
test_at p str pos = elim (get_elem? str pos) [ none ↦ false | some c ↦ p c ]

-- `while (pos > 0 && test(str[pos - 1])) pos--`
pub back_while : (ℕ → Bool) → Text → ℕ → ℕ
unfolding test_at
back_while p str zero = zero
back_while p str (suc n) = if test_at p str n then back_while p str n else suc n

-- `while (pos < str.length && test(str[pos])) pos++`, with the number of rounds that may be made.
pub forward_while : (ℕ → Bool) → Text → ℕ → ℕ → ℕ
unfolding test_at
forward_while p str zero pos = pos
forward_while p str (suc rounds) pos = elim (test_at p str pos) [
  | true ↦ forward_while p str rounds (suc pos)
  | false ↦ pos
]

unfoldable pub find_word_boundary_backward : Text → ℕ
unfolding back_while is_space not_space
find_word_boundary_backward str =
    let trimmed = back_while is_space str (length str) in back_while not_space str trimmed

unfoldable pub find_word_boundary_forward : Text → ℕ
unfolding forward_while is_space not_space
find_word_boundary_forward str =
    let start = forward_while is_space str (length str) 0 in
    forward_while not_space str (length str) start
