-- ===== src/EventRelay/Keys.antt =====
-- The key names of event-relay.ts, and the keyboard event that it dispatches.
use effect_native.Prelude.{
  ℕ, ◌||◌, ◌&&◌, Bool, false, Option, none, some, List, [], ◌∷◌, Text, codes, text_eq,
  if◌then◌else◌,
}
use effect_native.EventRelay.World.{Key, KeyPhase, Event, keyboard, Host, World}

-- A property of an object literal.
unfoldable pub find_key {ℓ} : {V : Type ℓ} → Text → List (Text × V) → Option V
find_key name [] = none
find_key name ((k, v) ∷ table) = if text_eq k name then some v else find_key name table

abbrev pub tui_to_dom_key : List (Text × Text)
tui_to_dom_key =
    (codes "enter", codes "Enter")
    ∷ (codes "return", codes "Enter")
    ∷ (codes "backspace", codes "Backspace")
    ∷ (codes "delete", codes "Delete")
    ∷ (codes "tab", codes "Tab")
    ∷ (codes "escape", codes "Escape")
    ∷ (codes "up", codes "ArrowUp")
    ∷ (codes "down", codes "ArrowDown")
    ∷ (codes "left", codes "ArrowLeft")
    ∷ (codes "right", codes "ArrowRight")
    ∷ (codes "space", codes " ")
    ∷ (codes "home", codes "Home")
    ∷ (codes "end", codes "End")
    ∷ (codes "pageup", codes "PageUp")
    ∷ (codes "pagedown", codes "PageDown")
    ∷ []

abbrev pub tui_to_dom_keycode : List (Text × ℕ)
tui_to_dom_keycode =
    (codes "enter", 13)
    ∷ (codes "return", 13)
    ∷ (codes "backspace", 8)
    ∷ (codes "delete", 46)
    ∷ (codes "tab", 9)
    ∷ (codes "escape", 27)
    ∷ (codes "up", 38)
    ∷ (codes "down", 40)
    ∷ (codes "left", 37)
    ∷ (codes "right", 39)
    ∷ (codes "space", 32)
    ∷ (codes "home", 36)
    ∷ (codes "end", 35)
    ∷ (codes "pageup", 33)
    ∷ (codes "pagedown", 34)
    ∷ []

module _ (host : Host) where
  unfoldable pub get_dom_key : Key → Text
  unfolding find_key
  get_dom_key key = elim (find_key (host.lower key.name) tui_to_dom_key) [
    | some name ↦ name
    | none ↦ key.name
  ]

  abbrev printable_code : Text → ℕ
  printable_code (c ∷ []) = c
  printable_code _ = 0

  -- No code of the table is 0, so that a hit is always taken.
  unfoldable pub get_dom_key_code : Key → ℕ
  unfolding find_key
  get_dom_key_code key = elim (find_key (host.lower key.name) tui_to_dom_keycode) [
    | some n ↦ n
    | none ↦ printable_code key.name
  ]

  abbrev pub or_default {ℓ} : {A : Type ℓ} → Option A → A → A
  or_default (some a) d = a
  or_default none d = d

  unfoldable pub keyboard_event : KeyPhase → Key → Event
  unfolding get_dom_key get_dom_key_code
  keyboard_event phase key =
      keyboard phase (get_dom_key key) (get_dom_key_code key)
        (or_default key.code (get_dom_key key)) key.ctrl (key.option || key.meta) key.shift key.meta
        (or_default key.repeated false)

  -- `dispatchKeyboardEvent`; the answer is `event?.defaultPrevented ?? false`.
  unfoldable pub dispatch_keyboard_event : ℕ → KeyPhase → Key → World → World × Bool
  unfolding keyboard_event
  dispatch_keyboard_event target phase key w =
      if w.has_document && w.page.has_view
      then host.dispatch target (keyboard_event phase key) w
      else (w, false)

  -- `dispatchClick`, `dispatchInputEvent`: their answers are not used.
  unfoldable pub dispatch_event : ℕ → Event → World → World
  dispatch_event target event w =
      if w.has_document && w.page.has_view then (host.dispatch target event w).0 else w
