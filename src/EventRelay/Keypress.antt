-- ===== src/EventRelay/Keypress.antt =====
-- `handleKeypress` of event-relay.ts: the handler of a terminal key press. Each part of it that may
-- return is a stage; a stage that does not return changes nothing.
pub mod Trap
pub mod Escape
pub mod Frame
use effect_native.Prelude.{
  ℕ, ◌-◌, ◌||◌, ◌&&◌, not, Bool, true, false, Option, none, some, [], Text, codes, text_eq, length,
  take, get_elem?, ltb, ◌==◌, if◌then◌else◌,
}
use effect_native.EventRelay.Page.{Element, is_radio_input}
use effect_native.EventRelay.Focus.{forward, backward}
use effect_native.EventRelay.World.{
  Key, keydown, Host, World, mouse_click, input_insert, input_delete_backward,
}
use effect_native.EventRelay.Keys.{dispatch_keyboard_event, dispatch_event}
use effect_native.EventRelay.Readline.{shortcut, insert_text}
use effect_native.EventRelay.Fields.{
  is_text_input, selection_from, selection_upto, apply_effect, move_radio_focus,
}
use effect_native.EventRelay.Navigation.{
  current_focus, deactivate_trap, move_focus, handle_accesskey,
}

-- The world behind the handler, and whether it called `tuiEvent.preventDefault()`.
pub record Outcome : Type 0 where
  pub world : World
  pub prevented : Bool

abbrev pub outcome : World → Bool → Outcome
outcome w p = record { world = w; prevented = p }

-- A part of the handler that does not return leaves everything as it is.
abbrev pub or_next : Option Outcome → Option Outcome → Option Outcome
or_next (some o) next = some o
or_next none next = next

abbrev pub returned : Option World → Option Outcome
returned none = none
returned (some w) = some (outcome w true)

module _ (host : Host) where
  -- Escape releases the trap.
  unfoldable pub escape_stage : Text → World → Option Outcome
  unfolding deactivate_trap
  escape_stage name w =
      if text_eq name (codes "escape") && elim w.trap_container [ none ↦ false | some c ↦ true ]
      then some (outcome (deactivate_trap host w) true)
      else none

  unfoldable pub accesskey_stage : Key → World → Option Outcome
  unfolding handle_accesskey
  accesskey_stage key w =
      if (key.option || key.meta) && (length key.name == 1)
      then returned (handle_accesskey host key.name w)
      else none

  unfoldable pub tab_stage : Key → Text → World → Option Outcome
  unfolding move_focus
  tab_stage key name w =
      if text_eq name (codes "tab")
      then some (outcome (move_focus host (if key.shift then backward else forward) w) true)
      else none

  unfoldable pub radio_stage : ℕ → Element → Text → World → Option Outcome
  unfolding move_radio_focus
  radio_stage target e name w =
      if is_radio_input e
      then (if text_eq name (codes "down") || text_eq name (codes "right")
          then some (outcome (move_radio_focus host forward target e w) true)
          else if text_eq name (codes "up") || text_eq name (codes "left")
          then some (outcome (move_radio_focus host backward target e w) true)
          else none)
      else none

  -- Enter clicks what is no text field.
  unfoldable pub enter_stage : ℕ → Element → Text → World → Option Outcome
  unfolding dispatch_event is_text_input
  enter_stage target e name w =
      if text_eq name (codes "enter") || text_eq name (codes "return")
      then some (
          outcome (if is_text_input host e then w else dispatch_event host target mouse_click w)
            false)
      else none

  is_checkbox : Element → Bool
  is_checkbox e =
      text_eq e.tag (codes "input")
      && elim e.input_type [ none ↦ false | some t ↦ text_eq (host.lower t) (codes "checkbox") ]

  -- Space clicks selects, buttons and checkboxes.
  unfoldable pub space_stage : ℕ → Element → Text → World → Option Outcome
  unfolding dispatch_event is_checkbox
  space_stage target e name w =
      if text_eq name (codes "space")
        && (text_eq e.tag (codes "select") || text_eq e.tag (codes "button") || is_checkbox e)
      then some (outcome (dispatch_event host target mouse_click w) true)
      else none

  unfoldable pub readline_stage : Key → ℕ → Element → Text → World → Option Outcome
  unfolding is_text_input selection_from shortcut apply_effect dispatch_event
  readline_stage key target e name w =
      if is_text_input host e
      then elim (shortcut key.ctrl (key.option || key.meta) name e.value (selection_from host e)) [
        | none ↦ none
        | some effect ↦ some (
            outcome
              (apply_effect host target effect (dispatch_event host target (input_insert [])) w)
              false)
      ]
      else none

  unfoldable pub char_to_insert : Key → Text → Option Text
  char_to_insert key name =
      if text_eq name (codes "space")
      then some (codes " ")
      else if (length key.name == 1) && not key.ctrl && not key.meta
      then some (if key.shift then host.upper key.name else key.name)
      else none

  unfoldable pub insert_stage : Key → ℕ → Element → Text → World → Option Outcome
  unfolding is_text_input char_to_insert selection_from selection_upto insert_text apply_effect
      dispatch_event
  insert_stage key target e name w =
      if is_text_input host e
      then elim (char_to_insert key name) [
        | none ↦ none
        | some char ↦ some (
            outcome
              (apply_effect host target
                (insert_text char e.value (selection_from host e) (selection_upto host e))
                (dispatch_event host target (input_insert char)) w)
              false)
      ]
      else none

  unfoldable pub backspace_stage : ℕ → Element → Text → World → Option Outcome
  unfolding is_text_input dispatch_event
  backspace_stage target e name w =
      if text_eq name (codes "backspace") && is_text_input host e
      then some (
          outcome
            (if ltb 0 (length e.value)
              then dispatch_event host target input_delete_backward
                  (host.set_value target (take (length e.value - 1) e.value) w)
              else w)
            false)
      else none

  -- The parts that look at the element that had the focus; it is read behind the keydown.
  unfoldable pub element_stages : Key → ℕ → Element → Text → World → Option Outcome
  element_stages key target e name w = or_next (radio_stage target e name w) (
      or_next (enter_stage target e name w) (
        or_next (space_stage target e name w) (
          or_next (readline_stage key target e name w)
            (or_next (insert_stage key target e name w) (backspace_stage target e name w)))))

  -- What follows a keydown that no handler of the document has prevented.
  unfoldable pub after_keydown : Key → ℕ → World → Option Outcome
  after_keydown key target w =
      let name = host.lower key.name in
      or_next (escape_stage name w) (
        or_next (accesskey_stage key w) (
          or_next (tab_stage key name w) (elim (get_elem? w.page.nodes target) [
            | none ↦ none
            | some e ↦ element_stages key target e name w
          ])))

  abbrev pub from_stages : Option Outcome → World → Outcome
  from_stages none w = outcome w false
  from_stages (some o) w = o

  unfoldable pub handle_keypress : Key → World → Outcome
  handle_keypress key w = elim (current_focus w) [
    | none ↦ outcome w false
    | some target ↦
        let (w', prevented) = dispatch_keyboard_event host target keydown key w in
        if prevented then outcome w' true else from_stages (after_keydown key target w') w'
  ]
