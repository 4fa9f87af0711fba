-- ===== src/EventRelay/Focus.antt =====
-- The order in which Tab visits the elements: `getFocusableElements` of event-relay.ts.
pub mod Order
pub mod Groups
pub mod Visits
pub mod Ring
use effect_native.Prelude.{
  ℕ, ◌+◌, ◌-◌, ◌%◌, ◌&&◌, not, Bool, true, false, Option, none, some, List, [], ◌∷◌, ◌++◌, Text,
  codes, text_eq, get_elem?, keep, find, member, ◌==◌, if◌then◌else◌,
}
use effect_native.Prelude.Int.{pos, negsuc}
use effect_native.EventRelay.Page.{
  Element, Page, on_element, is_element_visible, is_inside, walk_fuel, matches_focusable,
  is_radio_input,
}

-- `searchRoot.querySelectorAll(selector)`, without the hidden elements. The root is the trap's
-- container, or the document.
unfoldable pub candidates : Page → Option ℕ → List ℕ
candidates page trap =
    keep
      (λ el.
        on_element page el matches_focusable
        && elim trap [ none ↦ true | some root ↦ is_inside (walk_fuel page) page root el ]
        && is_element_visible (walk_fuel page) page el)
      page.order

-- `radio.name || `__unnamed_${radio.id || "radio"}``
unfoldable pub group_name : Element → Text
group_name e =
    if text_eq e.name []
    then codes "__unnamed_" ++ (if text_eq e.dom_id [] then codes "radio" else e.dom_id)
    else e.name

abbrev pub Groups : Type 0
Groups = List (Text × List ℕ)

-- A radio goes to the end of its group, and a new group to the end of the map.
unfoldable pub add_radio : Text → ℕ → Groups → Groups
add_radio name el [] = (name, el ∷ []) ∷ []
add_radio name el ((n, radios) ∷ groups) =
    if text_eq n name
    then (n, radios ++ el ∷ []) ∷ groups
    else (n, radios) ∷ add_radio name el groups

-- The loop over all candidates: the groups, and the elements that are no radios.
unfoldable pub collect : Page → List ℕ → Groups → List ℕ → Groups × List ℕ
unfolding add_radio
collect page [] groups result = (groups, result)
collect page (el ∷ els) groups result = elim (get_elem? page.nodes el) [
  | none ↦ collect page els groups (result ++ el ∷ [])
  | some e ↦ elim (is_radio_input e) [
    | true ↦ collect page els (add_radio (group_name e) el groups) result
    | false ↦ collect page els groups (result ++ el ∷ [])
  ]
]

is_checked : Element → Bool
is_checked e = e.checked

has_tab_index_zero : Element → Bool
has_tab_index_zero e = elim e.tab_index [ pos n ↦ n == 0 | negsuc n ↦ false ]

-- `getRadioGroupTabTarget`
unfoldable pub tab_target : Page → List ℕ → Option ℕ
unfolding is_checked has_tab_index_zero
tab_target page [] = none
tab_target page (r ∷ radios) = elim (find (λ el. on_element page el is_checked) (r ∷ radios)) [
  | some el ↦ some el
  | none ↦ elim (find (λ el. on_element page el has_tab_index_zero) (r ∷ radios)) [
    | some el ↦ some el
    | none ↦ some r
  ]
]

-- One radio for each group, behind the other elements.
unfoldable pub push_targets : Page → Groups → List ℕ → List ℕ
unfolding tab_target
push_targets page [] result = result
push_targets page ((n, radios) ∷ groups) result =
    push_targets page groups
      (elim (tab_target page radios) [ none ↦ result | some el ↦ result ++ el ∷ [] ])

-- `a.compareDocumentPosition(b) & 4`: `b` follows `a`.
unfoldable pub precedes : List ℕ → ℕ → ℕ → Bool
precedes [] a b = false
precedes (x ∷ order) a b =
    if x == a then not (a == b) && member b order else if x == b then false else precedes order a b

-- The sort by document order, as an insertion sort.
unfoldable pub insert_sorted : List ℕ → ℕ → List ℕ → List ℕ
unfolding precedes
insert_sorted order el [] = el ∷ []
insert_sorted order el (x ∷ xs) =
    if precedes order el x then el ∷ x ∷ xs else x ∷ insert_sorted order el xs

unfoldable pub sort_by_order : List ℕ → List ℕ → List ℕ
unfolding insert_sorted
sort_by_order order [] = []
sort_by_order order (x ∷ xs) = insert_sorted order x (sort_by_order order xs)

unfoldable pub get_focusable_elements : Page → Option ℕ → List ℕ
unfolding candidates collect push_targets sort_by_order
get_focusable_elements page trap =
    let (groups, result) = collect page (candidates page trap) [] [] in
    sort_by_order page.order (push_targets page groups result)

-- The place to which Tab goes from place `current` of `count` elements, and Shift+Tab.
pub data Direction : Type 0 where
  forward backward : Direction

-- `(i + 1) % n` and `(i - 1 + n) % n`; from outside the list, its first or last place.
unfoldable pub next_index : Direction → ℕ → Option ℕ → ℕ
next_index forward count none = 0
next_index backward count none = count - 1
next_index forward count (some i) = (i + 1) % count
next_index backward count (some i) = (i + count - 1) % count
