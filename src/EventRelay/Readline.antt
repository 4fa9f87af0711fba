-- ===== src/EventRelay/Readline.antt =====
-- The readline shortcuts of `handleKeypress` in event-relay.ts, and the insertion of a character:
-- what each does to the value and the cursor of a text field.
pub mod Laws
use effect_native.Prelude.{
  ℕ, ◌+◌, ◌-◌, Bool, Option, none, some, ◌++◌, min, Text, codes, text_eq, length, take, drop, ltb,
  if◌then◌else◌,
}
use effect_native.EventRelay.Words.{find_word_boundary_backward, find_word_boundary_forward}

-- What a shortcut does to a field: nothing, a move of the cursor, or a new value and cursor with an
-- input event behind them.
pub data Effect : Type 0 where
  stay : Effect
  move : ℕ → Effect
  write : Text → ℕ → Effect

-- The value and the cursor behind the effect.
abbrev pub value_after : Effect → Text → Text
value_after (write value' cursor') value = value'
value_after (move cursor') value = value
value_after stay value = value

abbrev pub cursor_after : Effect → ℕ → ℕ
cursor_after (write value' cursor') cursor = cursor'
cursor_after (move cursor') cursor = cursor'
cursor_after stay cursor = cursor

-- The shortcuts under Ctrl.
unfoldable pub ctrl_shortcut : Text → Text → ℕ → Option Effect
ctrl_shortcut name value sel =
    if text_eq name (codes "a")
    then some (move 0)
    else if text_eq name (codes "e")
    then some (move (length value))
    else if text_eq name (codes "f")
    then some (move (min (sel + 1) (length value)))
    else if text_eq name (codes "b")
    then some (move (sel - 1))
    else if text_eq name (codes "d")
    then some (
        if ltb sel (length value) then write (take sel value ++ drop (sel + 1) value) sel else stay)
    else if text_eq name (codes "w")
    then (let word_start = find_word_boundary_backward (take sel value) in
        some (write (take word_start value ++ drop sel value) word_start))
    else if text_eq name (codes "u")
    then some (write (drop sel value) 0)
    else if text_eq name (codes "k")
    then some (write (take sel value) sel)
    else none

-- The shortcuts under Alt.
unfoldable pub alt_shortcut : Text → Text → ℕ → Option Effect
alt_shortcut name value sel =
    if text_eq name (codes "f")
    then some (move (sel + find_word_boundary_forward (drop sel value)))
    else if text_eq name (codes "b")
    then some (move (find_word_boundary_backward (take sel value)))
    else if text_eq name (codes "d")
    then (let word_end = find_word_boundary_forward (drop sel value) in
        some (write (take sel value ++ drop (sel + word_end) value) sel))
    else none

-- A key that the first table does not bind goes on to the second.
abbrev pub or_else : Option Effect → Option Effect → Option Effect
or_else (some e) next = some e
or_else none next = next

unfoldable pub shortcut : Bool → Bool → Text → Text → ℕ → Option Effect
unfolding ctrl_shortcut alt_shortcut
shortcut ctrl alt name value sel =
    or_else (if ctrl then ctrl_shortcut name value sel else none)
      (if alt then alt_shortcut name value sel else none)

-- The insertion of a character over the selection.
unfoldable pub insert_text : Text → Text → ℕ → ℕ → Effect
insert_text char value sel_start sel_end =
    write (take sel_start value ++ (char ++ drop sel_end value)) (sel_start + length char)
