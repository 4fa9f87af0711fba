-- ===== src/EventRelay/Focus/Ring.antt =====
-- Tab and Shift+Tab walk a ring.
use native.Mathlib.Nat.{mod-add-mod}
use effect_native.Prelude.{ℕ, zero, suc, ◌+◌, ◌%◌, ◌<◌, ◌≡◌, Option, none, some, ap, ◌∙◌, arith}
use effect_native.EventRelay.Focus.{Direction, forward, backward, next_index}

-- From any place, or from outside, the next place lies in the list.
pub next_index-lt :
    (d : Direction) (count : ℕ) (current : Option ℕ)
    → 0 < count
    → next_index d count current < count
unfolding next_index
next_index-lt forward count none h = h
next_index-lt backward count none h = omega arith
next_index-lt forward count (some i) h = omega arith
next_index-lt backward count (some i) h = omega arith

abbrev pub opposite : Direction → Direction
opposite forward = backward
opposite backward = forward

-- Shift+Tab takes back a Tab, and Tab a Shift+Tab, from every place of the list.
pub next_index-opposite :
    (d : Direction) (count i : ℕ)
    → i < count
    → next_index (opposite d) count (some (next_index d count (some i))) ≡ i
unfolding next_index
next_index-opposite forward count i h = grind arith
next_index-opposite backward count i h = grind arith

abbrev pub presses : ℕ → Direction → ℕ → ℕ → ℕ
presses zero d count i = i
presses (suc k) d count i = presses k d count (next_index d count (some i))

-- `k` presses of Tab go `k` places on round the ring.
pub presses_forward : (k count i : ℕ) → i < count → presses k forward count i ≡ (i + k) % count
unfolding next_index
presses_forward zero count i h = grind arith
presses_forward (suc k) count i h =
    presses_forward k count ((i + 1) % count) (omega arith)
    ∙ (mod-add-mod (i + 1) count k ∙ ap (λ t. t % count) (omega arith))
