-- ===== src/EventRelay/Fields.antt =====
-- Text fields and radios as event-relay.ts reads and writes them.
pub mod Frame
use effect_native.Prelude.{
  ℕ, ◌||◌, ◌&&◌, min, Bool, true, false, Option, none, some, List, [], ◌∷◌, Text, codes, text_eq,
  length, get_elem?, set, keep, any, leb, if◌then◌else◌,
}
use effect_native.Prelude.Int.{ℤ, pos, negsuc}
use effect_native.EventRelay.Page.{Element, on_element, is_radio_input, index_of}
use effect_native.EventRelay.Focus.{Direction, next_index}
use effect_native.EventRelay.World.{Host, World, change}
use effect_native.EventRelay.Keys.{dispatch_event}
use effect_native.EventRelay.Readline.{Effect, stay, move, write}

-- A write to a property of an element.
unfoldable pub update_element : ℕ → (Element → Element) → World → World
update_element el f w = elim (get_elem? w.page.nodes el) [
  | none ↦ w
  | some e ↦ record w { page = record w.page { nodes = set w.page.nodes el (f e) } }
]

abbrev is_one_of : Text → List Text → Bool
is_one_of t names = any (λ n. text_eq n t) names

-- `!type || [...].includes(type)`
unfoldable pub absent_or_one_of : Host → Option Text → List Text → Bool
absent_or_one_of host none names = true
absent_or_one_of host (some t) names = text_eq t [] || is_one_of (host.lower t) names

unfoldable pub is_text_input : Host → Element → Bool
unfolding absent_or_one_of
is_text_input host e =
    if text_eq e.tag (codes "textarea")
    then true
    else text_eq e.tag (codes "input")
      && absent_or_one_of host e.input_type (
          codes "text"
          ∷ codes "password"
          ∷ codes "email"
          ∷ codes "url"
          ∷ codes "search"
          ∷ codes "tel"
          ∷ codes "number"
          ∷ [])

unfoldable pub supports_selection : Host → Element → Bool
unfolding absent_or_one_of
supports_selection host e =
    if text_eq e.tag (codes "textarea")
    then true
    else absent_or_one_of host e.input_type
        (codes "text" ∷ codes "search" ∷ codes "url" ∷ codes "tel" ∷ codes "password" ∷ [])

abbrev pub or_length : Option ℕ → Text → ℕ
or_length none value = length value
or_length (some n) value = n

-- `getSelectionPosition`, without the exceptions that it catches.
unfoldable pub selection_from : Host → Element → ℕ
unfolding supports_selection
selection_from host e =
    if supports_selection host e then or_length e.selection_start e.value else length e.value

unfoldable pub selection_upto : Host → Element → ℕ
unfolding supports_selection
selection_upto host e =
    if supports_selection host e then or_length e.selection_end e.value else length e.value

-- The setters of `selectionStart` and, behind it, `selectionEnd`: neither can pass the end of the value,
-- nor the start the end.
abbrev pub set_range : ℕ → ℕ → Element → Element
set_range start end_ e = record e {
  selection_start = some (min start (min end_ (length e.value)));
  selection_end = some (min end_ (length e.value));
}

-- `setSelectionPosition`
unfoldable pub set_selection_position : Host → ℕ → ℕ → ℕ → World → World
unfolding update_element supports_selection
set_selection_position host el start end_ w =
    if on_element w.page el (supports_selection host)
    then update_element el (set_range start end_) w
    else w

-- The assignments of a shortcut or of an insertion, and the input event behind them.
unfoldable pub apply_effect : Host → ℕ → Effect → (World → World) → World → World
unfolding set_selection_position
apply_effect host el stay event w = w
apply_effect host el (move cursor) event w = set_selection_position host el cursor cursor w
apply_effect host el (write value cursor) event w =
    event (set_selection_position host el cursor cursor (host.set_value el value w))

-- `getRadioGroup`
unfoldable pub get_radio_group : ℕ → Element → World → List ℕ
get_radio_group radio e w =
    if w.has_document && (if text_eq e.name [] then false else true)
    then keep
        (λ el. on_element w.page el (λ other. is_radio_input other && text_eq other.name e.name))
        w.page.order
    else radio ∷ []

-- The setter of `tabIndex`, which writes the attribute too.
unfoldable pub set_tab_index : ℤ → Text → ℕ → World → World
set_tab_index index attribute el =
    update_element el (λ e. record e { tab_index = index; tabindex_attribute = some attribute })

-- The writes to the radio that is left and to the one that is entered.
unfoldable pub enter_radio : Host → ℕ → ℕ → World → World
enter_radio host radio new_radio w =
    let left = set_tab_index (negsuc 0) (codes "-1") radio w in
    let entered = set_tab_index (pos 0) (codes "0") new_radio left in
    dispatch_event host new_radio change (host.focus new_radio (host.check new_radio entered))

-- The radio to which the arrow keys move.
unfoldable pub radio_neighbour : Direction → List ℕ → ℕ → Option ℕ
unfolding next_index index_of
radio_neighbour d radios radio =
    if leb (length radios) 1 then none else elim (index_of radios radio) [
      | none ↦ none
      | some i ↦ get_elem? radios (next_index d (length radios) (some i))
    ]

unfoldable pub move_radio_focus : Host → Direction → ℕ → Element → World → World
unfolding get_radio_group radio_neighbour enter_radio
move_radio_focus host d radio e w = elim (radio_neighbour d (get_radio_group radio e w) radio) [
  | none ↦ w
  | some new_radio ↦ enter_radio host radio new_radio w
]
