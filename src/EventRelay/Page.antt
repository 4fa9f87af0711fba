-- ===== src/EventRelay/Page.antt =====
-- The document as event-relay.ts reads it. Elements are nodes of a table and are named by their place
-- there; `order` lists those that are in the document, in document order.
pub mod Visible
use effect_native.Prelude.{
  ℕ, zero, suc, Bool, true, false, not, ◌&&◌, ◌||◌, Option, none, some, List, [], ◌∷◌, Text, codes,
  text_eq, length, get_elem?, ◌==◌, if◌then◌else◌,
}
use effect_native.Prelude.Int.{ℤ}

pub record Element : Type 0 where
  -- `tagName`, in lower case
  pub tag : Text
  -- the property `type`, which not every element has
  pub input_type : Option Text
  pub name : Text
  pub dom_id : Text
  pub checked : Bool
  pub tab_index : ℤ
  pub value : Text
  pub selection_start : Option ℕ
  pub selection_end : Option ℕ
  -- `style.display === "none"`
  pub hidden : Bool
  pub disabled : Bool
  pub has_href : Bool
  pub tabindex_attribute : Option Text
  pub accesskey : Option Text
  pub for_attribute : Option Text
  pub parent : Option ℕ

pub record Page : Type 0 where
  pub nodes : List Element
  pub order : List ℕ
  pub active : Option ℕ
  pub body : Option ℕ
  -- `defaultView` is not null
  pub has_view : Bool

-- A test of the element that a reference names.
abbrev pub on_element : Page → ℕ → (Element → Bool) → Bool
on_element page el p = elim (get_elem? page.nodes el) [ none ↦ false | some e ↦ p e ]

abbrev pub option_text_is : Option Text → Text → Bool
option_text_is none t = false
option_text_is (some s) t = text_eq s t

-- `activeElement ?? body ?? null`
unfoldable pub get_focused_element : Page → Option ℕ
get_focused_element page = elim page.active [ some el ↦ some el | none ↦ page.body ]

-- `isElementVisible`: no element on the way up is hidden. The walk takes fuel.
unfoldable pub is_element_visible : ℕ → Page → ℕ → Bool
is_element_visible zero page el = true
is_element_visible (suc fuel) page el = elim (get_elem? page.nodes el) [
  | none ↦ true
  | some e ↦ elim e.hidden [
    | true ↦ false
    | false ↦ elim e.parent [ none ↦ true | some up ↦ is_element_visible fuel page up ]
  ]
]

-- `el` is a descendant of `root`.
unfoldable pub is_inside : ℕ → Page → ℕ → ℕ → Bool
is_inside zero page root el = false
is_inside (suc fuel) page root el = elim (get_elem? page.nodes el) [
  | none ↦ false
  | some e ↦ elim e.parent [
    | none ↦ false
    | some up ↦ elim (up == root) [ true ↦ true | false ↦ is_inside fuel page root up ]
  ]
]

-- One step up for each node is enough where no element is its own ancestor.
abbrev pub walk_fuel : Page → ℕ
walk_fuel page = suc (length page.nodes)

-- The selector of `getFocusableElements`.
unfoldable pub matches_focusable : Element → Bool
matches_focusable e =
    ((text_eq e.tag (codes "button")
        || text_eq e.tag (codes "input")
        || text_eq e.tag (codes "select")
        || text_eq e.tag (codes "textarea"))
      && not e.disabled)
    || (text_eq e.tag (codes "a") && e.has_href)
    || elim e.tabindex_attribute [ none ↦ false | some t ↦ not (text_eq t (codes "-1")) ]

unfoldable pub is_radio_input : Element → Bool
is_radio_input e = text_eq e.tag (codes "input") && option_text_is e.input_type (codes "radio")

-- The first place of an element in a list.
unfoldable pub index_of : List ℕ → ℕ → Option ℕ
index_of [] el = none
index_of (x ∷ xs) el =
    if x == el then some 0 else elim (index_of xs el) [ none ↦ none | some i ↦ some (suc i) ]
