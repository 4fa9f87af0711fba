-- ===== src/EventRelay/Navigation.antt =====
-- Focus moves of event-relay.ts: the focus trap, Tab and the access keys.
use effect_native.Prelude.{
  ℕ, ◌||◌, Option, none, some, List, [], Text, codes, text_eq, length, get_elem?, find,
  if◌then◌else◌,
}
use effect_native.EventRelay.Page.{
  Element, on_element, option_text_is, get_focused_element, index_of,
}
use effect_native.EventRelay.Focus.{Direction, next_index, get_focusable_elements}
use effect_native.EventRelay.World.{Host, World}
use effect_native.EventRelay.Scroll.{scroll_into_view}

abbrev pub current_focus : World → Option ℕ
current_focus w = if w.has_document then get_focused_element w.page else none

abbrev pub place_of : List ℕ → Option ℕ → Option ℕ
place_of els none = none
place_of els (some el) = index_of els el

unfoldable pub activate_trap : ℕ → World → World
activate_trap container w = record w {
  pre_trap_focus = current_focus w;
  trap_container = some container;
}

-- `getFocusableElements`, with its test for a document
abbrev pub focusables : World → List ℕ
focusables w = if w.has_document then get_focusable_elements w.page w.trap_container else []

-- The element to which Tab moves.
unfoldable pub tab_destination : Direction → World → Option ℕ
unfolding index_of next_index
tab_destination d w =
    let current = place_of (focusables w) (current_focus w) in
    get_elem? (focusables w) (next_index d (length (focusables w)) current)

module _ (host : Host) where
  abbrev pub refocus : Option ℕ → World → World
  refocus none w = w
  refocus (some el) w = host.focus el w

  -- The trap is gone before the remembered element gets the focus, and that is forgotten behind it.
  unfoldable pub deactivate_trap : World → World
  deactivate_trap w = record (refocus w.pre_trap_focus (record w { trap_container = none })) {
    pre_trap_focus = none;
  }

  unfoldable pub move_focus : Direction → World → World
  unfolding tab_destination scroll_into_view
  move_focus d w = elim (tab_destination d w) [
    | none ↦ w
    | some next ↦ scroll_into_view host next (host.focus next w)
  ]

  -- `handleAccesskey`; `none` is the answer false. A quote or a backslash as the key makes a selector
  -- that is not valid, for which `querySelector` throws; such keys are left out.
  unfoldable pub accesskey_target : Text → World → Option ℕ
  accesskey_target key w =
      let normalized = host.lower key in
      if w.has_document
      then find
          (λ el. on_element w.page el (λ e.
            option_text_is e.accesskey normalized
            || option_text_is e.accesskey (host.upper normalized)))
          w.page.order
      else none

  abbrev pub label_target : Element → World → Option ℕ
  label_target e w =
      if text_eq e.tag (codes "label")
      then elim e.for_attribute [
        | none ↦ none
        | some id ↦
            if text_eq id []
            then none
            else find (λ el. on_element w.page el (λ x. text_eq x.dom_id id)) w.page.order
      ]
      else none

  abbrev pub click_or_focus : ℕ → Element → World → World
  click_or_focus el e w =
      if text_eq e.tag (codes "button") || text_eq e.tag (codes "a")
      then host.click el w
      else host.focus el w

  abbrev pub focus_or_click : Option ℕ → ℕ → Element → World → World
  focus_or_click (some target) el e w = host.focus target w
  focus_or_click none el e w = click_or_focus el e w

  unfoldable pub activate_accesskey : ℕ → Element → World → World
  activate_accesskey el e w = focus_or_click (label_target e w) el e w

  abbrev pub activate_node : ℕ → Option Element → World → Option World
  activate_node el none w = none
  activate_node el (some e) w = some (activate_accesskey el e w)

  abbrev pub activate_found : Option ℕ → World → Option World
  activate_found none w = none
  activate_found (some el) w = activate_node el (get_elem? w.page.nodes el) w

  unfoldable pub handle_accesskey : Text → World → Option World
  unfolding accesskey_target activate_accesskey
  handle_accesskey key w = activate_found (accesskey_target key w) w
