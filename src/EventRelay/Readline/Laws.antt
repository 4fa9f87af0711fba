-- ===== src/EventRelay/Readline/Laws.antt =====
-- What the shortcuts keep and what they delete.
use mathlib.Core.Path.{subst, ap₂}
use mathlib.Core.List.{append-nil}
use mathlib.Core.Option
use native.Mathlib.Numerals.{add-one}
use effect_native.Prelude.{
  ℕ, ◌+◌, ◌-◌, ◌≤◌, ◌<◌, ◌≡◌, refl, ap, ◌∙◌, Bool, true, false, Option, none, some, inl, inr, [],
  ◌∷◌, Text, codes, text_eq, zero, suc, length, take, drop, min, ◌++◌, ltb, ltb→lt,
  take-append-drop, Bool-cases, if◌then◌else◌, length-append, length-take, length-drop, arith,
}
use effect_native.EventRelay.Words.{find_word_boundary_backward, find_word_boundary_forward}
use effect_native.EventRelay.Words.Laws.{
  find_word_boundary_backward-le, find_word_boundary_forward-le,
}
use effect_native.EventRelay.Readline.{
  Effect, stay, move, write, value_after, cursor_after, ctrl_shortcut, alt_shortcut, or_else,
  shortcut, insert_text,
}

back-le :
    (value : Text) (sel : ℕ) → find_word_boundary_backward (take sel value) ≤ min sel (length value)
back-le value sel =
    omega (arith, find_word_boundary_backward-le (take sel value), length-take sel value)

forward-le :
    (value : Text) (sel : ℕ) → find_word_boundary_forward (drop sel value) ≤ length value - sel
forward-le value sel =
    omega (arith, find_word_boundary_forward-le (drop sel value), length-drop sel value)

-- What a shortcut may do: leave the field alone, move the cursor within the text, or delete one range
-- that begins at the new cursor and reaches from there at least to the old one.
pub data IsEdit (value : Text) (sel : ℕ) : Effect → Type 0 where
  stays : IsEdit value sel stay
  moves : (c : ℕ) → c ≤ length value → IsEdit value sel (move c)
  deletes :
      (c upto : ℕ)
      → c ≤ sel
      → sel ≤ upto
      → upto ≤ length value
      → IsEdit value sel (write (take c value ++ drop upto value) c)

-- If there is an effect, it is such an edit.
pub data Each (value : Text) (sel : ℕ) : Option Effect → Type 0 where
  nothing : Each value sel none
  effect : {e : Effect} → IsEdit value sel e → Each value sel (some e)

Each-if :
    (b : Bool) (value : Text) (sel : ℕ) (x y : Option Effect)
    → Each value sel x
    → Each value sel y
    → Each value sel (if b then x else y)
Each-if true value sel x y hx hy = hx
Each-if false value sel x y hx hy = hy

drop_all : (value : Text) → drop (length value) value ≡ []
drop_all [] = refl
drop_all (c ∷ value) = drop_all value

delete_to_end :
    (value : Text) (sel : ℕ) → sel ≤ length value → IsEdit value sel (write (take sel value) sel)
delete_to_end value sel h =
    subst (λ t. IsEdit value sel (write t sel))
      (ap (take sel value ++◌) (drop_all value) ∙ append-nil _)
      (deletes sel (length value) (omega arith) h (omega arith))

delete_one :
    (value : Text) (sel : ℕ)
    → sel ≤ length value
    → IsEdit value sel (
        if ltb sel (length value) then write (take sel value ++ drop (sel + 1) value) sel else stay)
delete_one value sel h = elim (Bool-cases (ltb sel (length value))) [
  | inl lt ↦ rw lt (
      deletes sel (sel + 1) (omega arith) (omega arith)
        (omega (arith, ltb→lt sel (length value) lt)))
  | inr ge ↦ rw ge stays
]

Each-or_else :
    (value : Text) (sel : ℕ) (x y : Option Effect)
    → Each value sel x
    → Each value sel y
    → Each value sel (or_else x y)
Each-or_else value sel none y hx hy = hy
Each-or_else value sel (some e) y hx hy = hx

module _ (name value : Text) (sel : ℕ) (h : sel ≤ length value) where
  ctrl-Each : Each value sel (ctrl_shortcut name value sel)
  unfolding ctrl_shortcut
  ctrl-Each = Each-if _ _ _ _ _ (effect (moves 0 (omega arith))) (
      Each-if _ _ _ _ _ (effect (moves (length value) (omega arith))) (
        Each-if _ _ _ _ _ (effect (moves (min (sel + 1) (length value)) (omega arith))) (
          Each-if _ _ _ _ _ (effect (moves (sel - 1) (omega arith))) (
            Each-if _ _ _ _ _ (effect (delete_one value sel h)) (
              Each-if _ _ _ _ _
                (effect (
                  deletes (find_word_boundary_backward (take sel value)) sel
                    (omega (arith, back-le value sel)) (omega arith) h))
                (Each-if _ _ _ _ _ (effect (deletes 0 sel (omega arith) (omega arith) h))
                  (Each-if _ _ _ _ _ (effect (delete_to_end value sel h)) nothing)))))))

  alt-Each : Each value sel (alt_shortcut name value sel)
  unfolding alt_shortcut
  alt-Each =
      Each-if _ _ _ _ _
        (effect (
          moves (sel + find_word_boundary_forward (drop sel value))
            (omega (arith, forward-le value sel))))
        (Each-if _ _ _ _ _
          (effect (
            moves (find_word_boundary_backward (take sel value))
              (omega (arith, back-le value sel))))
          (Each-if _ _ _ _ _
            (effect (
              deletes sel (sel + find_word_boundary_forward (drop sel value)) (omega arith)
                (omega arith) (omega (arith, forward-le value sel))))
            nothing))

  -- From a cursor within the text, every shortcut, if it is bound, leaves the field alone, moves the
  -- cursor within the text, or deletes one range that begins at the new cursor and reaches at least
  -- to the old one.
  pub shortcut-IsEdit : (ctrl alt : Bool) → Each value sel (shortcut ctrl alt name value sel)
  unfolding shortcut
  shortcut-IsEdit ctrl alt =
      Each-or_else value sel _ _ (Each-if ctrl _ _ _ _ ctrl-Each nothing)
        (Each-if alt _ _ _ _ alt-Each nothing)

take-take_append :
    (sel : ℕ) (value ys : Text)
    → sel ≤ length value
    → take sel (take sel value ++ ys) ≡ take sel value
take-take_append zero value ys h = refl
take-take_append (suc sel) [] ys h = absurd (omega arith)
take-take_append (suc sel) (c ∷ value) ys h =
    ap (c ∷◌) (take-take_append sel value ys (omega arith))

drop-take_append :
    (sel : ℕ) (value ys : Text) (c : ℕ)
    → sel ≤ length value
    → drop (suc sel) (take sel value ++ c ∷ ys) ≡ ys
drop-take_append zero value ys c h = refl
drop-take_append (suc sel) [] ys c h = absurd (omega arith)
drop-take_append (suc sel) (d ∷ value) ys c h = drop-take_append sel value ys c (omega arith)

lt-typed :
    (c : ℕ) (value : Text) (sel : ℕ)
    → sel ≤ length value
    → sel < length (take sel value ++ c ∷ drop sel value)
lt-typed c value sel h =
    omega (arith, length-append (take sel value) (c ∷ drop sel value), length-take sel value)

delete_within :
    (typed value : Text) (sel : ℕ)
    → sel < length typed
    → take sel typed ++ drop (sel + 1) typed ≡ value
    → some (
        if ltb sel (length typed) then write (take sel typed ++ drop (sel + 1) typed) sel else stay)
      ≡ some (write value sel)
delete_within typed value sel h e = ground arith

-- With the cursor within the text and nothing selected, typing a character leaves the cursor behind
-- it; Ctrl+B then moves back to where it was, and Ctrl+D there restores the value.
pub shortcut-insert_text :
    (c : ℕ) (value : Text) (sel : ℕ)
    → sel ≤ length value
    → (shortcut true false
          (codes "b")
          (value_after (insert_text (c ∷ []) value sel sel) value)
          (cursor_after (insert_text (c ∷ []) value sel sel) sel)
        ≡ some (move sel))
      × (shortcut true false
            (codes "d")
            (value_after (insert_text (c ∷ []) value sel sel) value)
            sel
          ≡ some (write value sel))
unfolding shortcut insert_text text_eq
shortcut-insert_text c value sel h = (
  ground arith,
  delete_within (take sel value ++ c ∷ drop sel value) value sel (lt-typed c value sel h) (
      ap₂ ◌++◌ (take-take_append sel value (c ∷ drop sel value) h)
        (rw add-one (drop-take_append sel value (drop sel value) c h))
      ∙ take-append-drop sel value),
)

-- Alt+B moves to exactly the place from which Ctrl+W deletes, and Alt+F to the one up to which Alt+D deletes.
pub words_agree :
    (value : Text) (sel : ℕ)
    → (shortcut true false (codes "w") value sel
        ≡ Option.map
            (λ e. write (take (cursor_after e sel) value ++ drop sel value) (cursor_after e sel))
            (shortcut false true (codes "b") value sel))
      × (shortcut false true (codes "d") value sel
          ≡ Option.map
              (λ e. write (take sel value ++ drop (cursor_after e sel) value) sel)
              (shortcut false true (codes "f") value sel))
unfolding shortcut text_eq
words_agree value sel = (refl, refl)
