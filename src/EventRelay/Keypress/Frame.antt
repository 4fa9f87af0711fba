-- ===== src/EventRelay/Keypress/Frame.antt =====
-- The stages of a key press, and the state of the focus trap.
use effect_native.Prelude.{
  ℕ, ◌-◌, ◌||◌, ◌&&◌, ◌≡◌, refl, ◌∙◌, inl, inr, Bool, true, false, Option, none, some, [], Text,
  text_eq, codes, take, length, get_elem?, ltb, if◌then◌else◌, Bool-cases, Option-cases, arith,
}
use effect_native.EventRelay.Page.{Element, is_radio_input}
use effect_native.EventRelay.Focus.{Direction, forward, backward}
use effect_native.EventRelay.World.{
  Key, keydown, Host, World, mouse_click, input_insert, input_delete_backward,
}
use effect_native.EventRelay.Keys.{keyboard_event, dispatch_keyboard_event, dispatch_event}
use effect_native.EventRelay.Scroll.{scroll_renderable, scroll_into_view}
use effect_native.EventRelay.Readline.{Effect, insert_text}
use effect_native.EventRelay.Fields.{
  is_text_input, selection_from, selection_upto, apply_effect, move_radio_focus,
}
use effect_native.EventRelay.Fields.Frame.{
  trap_state, LeavesTrap, trap_state-sent, trap_state-dispatch_event, trap_state-apply_effect,
  trap_state-move_radio_focus,
}
use effect_native.EventRelay.Navigation.{
  current_focus, tab_destination, move_focus, accesskey_target, label_target, focus_or_click,
  activate_accesskey, activate_node, activate_found,
}
use effect_native.EventRelay.Keypress.{
  Outcome, outcome, returned, or_next, escape_stage, accesskey_stage, tab_stage, radio_stage,
  enter_stage, space_stage, readline_stage, char_to_insert, insert_stage, backspace_stage,
  element_stages, after_keydown, from_stages, handle_keypress,
}
use effect_native.EventRelay.Keypress.Trap.{
  handle_keypress-unfocused, handle_keypress-prevented, handle_keypress-allowed,
}

-- If the stage returns, it leaves this state of the trap.
data Keeps (s : Bool × (Option ℕ × Option ℕ)) : Option Outcome → Type 0 where
  falls : Keeps s none
  returns : {o : Outcome} → trap_state o.world ≡ s → Keeps s (some o)

Keeps-or_next :
    (s : Bool × (Option ℕ × Option ℕ)) (x y : Option Outcome)
    → Keeps s x
    → Keeps s y
    → Keeps s (or_next x y)
Keeps-or_next s none y hx hy = hy
Keeps-or_next s (some o) y hx hy = hx

Keeps-if :
    (s : Bool × (Option ℕ × Option ℕ)) (b : Bool) (x y : Option Outcome)
    → Keeps s x
    → Keeps s y
    → Keeps s (if b then x else y)
Keeps-if s true x y hx hy = hx
Keeps-if s false x y hx hy = hy

trap_state-if :
    (s : Bool × (Option ℕ × Option ℕ)) (b : Bool) (v w : World)
    → trap_state v ≡ s
    → trap_state w ≡ s
    → trap_state (if b then v else w) ≡ s
trap_state-if s true v w hv hw = hv
trap_state-if s false v w hv hw = hw

trap_state-scroll_into_view :
    (host : Host) (el : ℕ) (w : World) → trap_state (scroll_into_view host el w) ≡ trap_state w
unfolding scroll_into_view scroll_renderable
trap_state-scroll_into_view host el w = ground arith

module _ {host : Host} (leaves : LeavesTrap host) where
  trap_state-moved :
      (o : Option ℕ) (w : World)
      → trap_state
          (elim o [ none ↦ w | some next ↦ scroll_into_view host next (host.focus next w) ])
        ≡ trap_state w
  trap_state-moved none w = refl
  trap_state-moved (some next) w =
      trap_state-scroll_into_view host next (host.focus next w) ∙ leaves.focus next w

  pub trap_state-move_focus :
      (d : Direction) (w : World) → trap_state (move_focus host d w) ≡ trap_state w
  unfolding move_focus
  trap_state-move_focus d w = trap_state-moved (tab_destination d w) w

  pub trap_state-dispatch_keyboard_event :
      (target : ℕ) (key : Key) (w : World)
      → trap_state (dispatch_keyboard_event host target keydown key w).0 ≡ trap_state w
  unfolding dispatch_keyboard_event
  trap_state-dispatch_keyboard_event target key w =
      trap_state-sent leaves (w.has_document && w.page.has_view) target
        (keyboard_event host keydown key) w

  escape-Keeps :
      (name : Text) (w : World)
      → text_eq name (codes "escape") ≡ false
      → Keeps (trap_state w) (escape_stage host name w)
  unfolding escape_stage
  escape-Keeps name w other = rw other falls

  trap_state-focus_or_click :
      (o : Option ℕ) (el : ℕ) (e : Element) (w : World)
      → trap_state (focus_or_click host o el e w) ≡ trap_state w
  trap_state-focus_or_click (some target) el e w = leaves.focus target w
  trap_state-focus_or_click none el e w =
      trap_state-if (trap_state w) (text_eq e.tag (codes "button") || text_eq e.tag (codes "a"))
        (host.click el w) (host.focus el w) (leaves.click el w) (leaves.focus el w)

  activate_node-Keeps :
      (el : ℕ) (o : Option Element) (w : World)
      → Keeps (trap_state w) (returned (activate_node host el o w))
  unfolding activate_accesskey
  activate_node-Keeps el none w = falls
  activate_node-Keeps el (some e) w =
      returns (trap_state-focus_or_click (label_target host e w) el e w)

  activate_found-Keeps :
      (o : Option ℕ) (w : World) → Keeps (trap_state w) (returned (activate_found host o w))
  activate_found-Keeps none w = falls
  activate_found-Keeps (some el) w = activate_node-Keeps el (get_elem? w.page.nodes el) w

  accesskey-Keeps : (key : Key) (w : World) → Keeps (trap_state w) (accesskey_stage host key w)
  unfolding accesskey_stage
  accesskey-Keeps key w =
      Keeps-if _ _ _ _ (activate_found-Keeps (accesskey_target host key.name w) w) falls

  tab-Keeps :
      (key : Key) (name : Text) (w : World) → Keeps (trap_state w) (tab_stage host key name w)
  unfolding tab_stage
  tab-Keeps key name w = Keeps-if _ _ _ _ (returns (trap_state-move_focus _ w)) falls

  module _ (target : ℕ) (e : Element) (name : Text) (w : World) where
    radio-Keeps : Keeps (trap_state w) (radio_stage host target e name w)
    unfolding radio_stage
    radio-Keeps =
        Keeps-if _ (is_radio_input e) _ _
          (Keeps-if _ _ _ _
            (returns {o = outcome (move_radio_focus host forward target e w) true}
              (trap_state-move_radio_focus leaves forward target e w))
            (Keeps-if _ _ _ _
              (returns {o = outcome (move_radio_focus host backward target e w) true}
                (trap_state-move_radio_focus leaves backward target e w))
              falls))
          falls

    enter-Keeps : Keeps (trap_state w) (enter_stage host target e name w)
    unfolding enter_stage
    enter-Keeps =
        Keeps-if _ _ _ _
          (returns (
            trap_state-if (trap_state w) (is_text_input host e) w
              (dispatch_event host target mouse_click w) refl
              (trap_state-dispatch_event leaves target mouse_click w)))
          falls

    space-Keeps : Keeps (trap_state w) (space_stage host target e name w)
    unfolding space_stage
    space-Keeps =
        Keeps-if _ _ _ _ (returns (trap_state-dispatch_event leaves target mouse_click w)) falls

    backspace-Keeps : Keeps (trap_state w) (backspace_stage host target e name w)
    unfolding backspace_stage
    backspace-Keeps =
        let shortened = host.set_value target (take (length e.value - 1) e.value) w in
        Keeps-if _ _ _ _
          (returns (
            trap_state-if (trap_state w) (ltb 0 (length e.value))
              (dispatch_event host target input_delete_backward shortened) w
              (trap_state-dispatch_event leaves target input_delete_backward shortened
                ∙ leaves.set_value target (take (length e.value - 1) e.value) w)
              refl))
          falls

    module _ (key : Key) where
      readline-effect :
          (o : Option Effect)
          → Keeps (trap_state w) (elim o [
            | none ↦ none
            | some edit ↦ some (
                outcome
                  (apply_effect host target edit (dispatch_event host target (input_insert [])) w)
                  false)
          ])
      readline-effect none = falls
      readline-effect (some edit) = returns (
          trap_state-apply_effect leaves target edit (dispatch_event host target (input_insert []))
            w (trap_state-dispatch_event leaves target (input_insert [])))

      readline-Keeps : Keeps (trap_state w) (readline_stage host key target e name w)
      unfolding readline_stage
      readline-Keeps = Keeps-if _ (is_text_input host e) _ none (readline-effect _) falls

      insert-char :
          (o : Option Text)
          → Keeps (trap_state w) (elim o [
            | none ↦ none
            | some char ↦ some (
                outcome
                  (apply_effect host target
                    (insert_text char e.value (selection_from host e) (selection_upto host e))
                    (dispatch_event host target (input_insert char))
                    w)
                  false)
          ])
      insert-char none = falls
      insert-char (some char) = returns (
          trap_state-apply_effect leaves target
            (insert_text char e.value (selection_from host e) (selection_upto host e))
            (dispatch_event host target (input_insert char)) w
            (trap_state-dispatch_event leaves target (input_insert char)))

      insert-Keeps : Keeps (trap_state w) (insert_stage host key target e name w)
      unfolding insert_stage
      insert-Keeps =
          Keeps-if _ (is_text_input host e) _ none (insert-char (char_to_insert host key name))
            falls

      element-Keeps : Keeps (trap_state w) (element_stages host key target e name w)
      unfolding element_stages
      element-Keeps = Keeps-or_next _ _ _ radio-Keeps (
          Keeps-or_next _ _ _ enter-Keeps (
            Keeps-or_next _ _ _ space-Keeps (
              Keeps-or_next _ _ _ readline-Keeps
                (Keeps-or_next _ _ _ insert-Keeps backspace-Keeps))))

  at_target-Keeps :
      (key : Key) (target : ℕ) (name : Text) (w : World) (o : Option Element)
      → Keeps
          (trap_state w)
          (elim o [ none ↦ none | some e ↦ element_stages host key target e name w ])
  at_target-Keeps key target name w none = falls
  at_target-Keeps key target name w (some e) = element-Keeps target e name w key

  after_keydown-Keeps :
      (key : Key) (target : ℕ) (w : World)
      → text_eq (host.lower key.name) (codes "escape") ≡ false
      → Keeps (trap_state w) (after_keydown host key target w)
  unfolding after_keydown
  after_keydown-Keeps key target w other =
      Keeps-or_next _ _ _ (escape-Keeps (host.lower key.name) w other) (
        Keeps-or_next _ _ _ (accesskey-Keeps key w) (
          Keeps-or_next _ _ _ (tab-Keeps key (host.lower key.name) w)
            (at_target-Keeps key target (host.lower key.name) w (get_elem? w.page.nodes target))))

  trap_state-from_stages :
      (o : Option Outcome) (w : World)
      → Keeps (trap_state w) o
      → trap_state (from_stages host o w).world ≡ trap_state w
  trap_state-from_stages none w k = refl
  trap_state-from_stages (some o) w (returns h) = h

-- No key press but Escape sets or releases a trap, or changes the element to which the focus returns
-- behind it, whatever stage handles the key and whether a handler prevents its keydown, provided that the
-- handlers of the document do not call the methods of the relay.
pub trap_state-handle_keypress :
    (host : Host) (key : Key) (w : World)
    → LeavesTrap host
    → text_eq (host.lower key.name) (codes "escape") ≡ false
    → trap_state (handle_keypress host key w).world ≡ trap_state w
trap_state-handle_keypress host key w leaves other = elim (Option-cases (current_focus w)) [
  | inl nothing ↦ rw (handle_keypress-unfocused host key w nothing) refl
  | inr (target, focus) ↦
      let sent = dispatch_keyboard_event host target keydown key w in
      let before = trap_state-dispatch_keyboard_event leaves target key w in
      elim (Bool-cases sent.1) [
        | inl prevented ↦ rw (handle_keypress-prevented host key w target focus prevented) before
        | inr allowed ↦ rw (handle_keypress-allowed host key w target focus allowed) (
            trap_state-from_stages leaves (after_keydown host key target sent.0) sent.0
              (after_keydown-Keeps leaves key target sent.0 other)
            ∙ before)
      ]
]
