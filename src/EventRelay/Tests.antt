-- ===== src/EventRelay/Tests.antt =====
-- A small page with a trap, a text field and a group of radios, and the theorems at it.
use mathlib.Core.Path.{subst}
use mathlib.Core.List.{tail}
use mathlib.Core.Option.{some-injective}
use effect_native.Prelude.{
  ℕ, zero, suc, ◌+◌, ◌≤◌, ◌<◌, ◌≡◌, refl, ◌↔◌, inr, true, false, ◌&&◌, none, some, List, [], ◌∷◌,
  Text, codes, text_eq, length, get_elem?, all, any, All, if◌then◌else◌, arith, ◌-◌, ◌==◌,
}
use effect_native.Prelude.Int.{pos, negsuc}
use effect_native.EventRelay.Page.{
  Element, Page, on_element, get_focused_element, is_element_visible, is_inside, walk_fuel,
  matches_focusable, is_radio_input,
}
use effect_native.EventRelay.Page.Visible.{IsTree, HiddenBy, is_element_visible_lem}
use effect_native.EventRelay.Words.{find_word_boundary_backward, find_word_boundary_forward}
use effect_native.EventRelay.Words.Laws.{
  IsWordStart, IsWordEnd, find_word_boundary_backward_lem, find_word_boundary_forward_lem,
}
use effect_native.EventRelay.Readline.{
  write, move, value_after, cursor_after, shortcut, insert_text,
}
use effect_native.EventRelay.Readline.Laws.{Each, shortcut-IsEdit, shortcut-insert_text}
use effect_native.EventRelay.Focus.{
  candidates, group_name, get_focusable_elements, forward, backward, next_index,
}
use effect_native.EventRelay.Focus.Order.{count, IsSorted}
use effect_native.EventRelay.Focus.Groups.{in_group}
use effect_native.EventRelay.Focus.Ring.{next_index-opposite}
use effect_native.EventRelay.Focus.Visits.{
  radio_group_once, visited_are_allowed, get_focusable_elements-IsSorted,
}
use effect_native.EventRelay.Scroll.{scroll_position, scroll_into_view}
use effect_native.EventRelay.Scroll.Laws.{
  scroll_after, scroll_position_shows, scroll_position_nearest,
}
use effect_native.EventRelay.World.{Key, keydown, Host, World}
use effect_native.EventRelay.Keys.{dispatch_keyboard_event}
use effect_native.EventRelay.Fields.{update_element}
use effect_native.EventRelay.Navigation.{current_focus, activate_trap, move_focus, tab_destination}
use effect_native.EventRelay.Keypress.{
  escape_stage, accesskey_stage, tab_stage, after_keydown, handle_keypress,
}
use effect_native.EventRelay.Fields.Frame.{trap_state, LeavesTrap, trap_state-update_element}
use effect_native.EventRelay.Keypress.Frame.{trap_state-handle_keypress}
use effect_native.EventRelay.Keypress.Trap.{tab_stays_in_trap}
use effect_native.EventRelay.Keypress.Escape.{presses, escape_restores_focus}
use effect_native.EventRelay.Lifecycle.{
  attach, detach, attach_to, detach_from, activate_focus_trap, calls,
}
use effect_native.EventRelay.Lifecycle.Laws.{IsLinked, calls-IsLinked, detach-attach}

abbrev plain_element : Element
plain_element = record {
  tag = codes "div";
  input_type = none;
  name = [];
  dom_id = [];
  checked = false;
  tab_index = negsuc 0;
  value = [];
  selection_start = none;
  selection_end = none;
  hidden = false;
  disabled = false;
  has_href = false;
  tabindex_attribute = none;
  accesskey = none;
  for_attribute = none;
  parent = none;
}

abbrev child : Element
child = record plain_element { parent = some 0 }

abbrev radio : Element
radio = record child {
  tag = codes "input";
  input_type = some (codes "radio");
  name = codes "size";
  tab_index = pos 0;
}

abbrev field : Element
field = record child {
  tag = codes "input";
  input_type = some (codes "text");
  value = codes "ab cd";
  selection_start = some 5;
  selection_end = some 5;
}

-- A container with a button, a text field, two radios of one group and a hidden button.
abbrev sample_page : Page
sample_page = record {
  nodes =
      plain_element
      ∷ record child { tag = codes "button" }
      ∷ field
      ∷ radio
      ∷ record radio { checked = true }
      ∷ record child { tag = codes "button"; hidden = true }
      ∷ [];
  order = 0 ∷ 1 ∷ 2 ∷ 3 ∷ 4 ∷ 5 ∷ [];
  active = some 2;
  body = some 0;
  has_view = true;
}

abbrev sample : World
sample = record {
  page = sample_page;
  attached = true;
  current_renderer = some 7;
  has_document = true;
  has_node_map = true;
  has_handler = true;
  trap_container = some 0;
  pre_trap_focus = some 1;
  scroll_dom_container = none;
  scroll_tui_container = none;
  subscribed = 7 ∷ [];
}

abbrev store_value : Text → Element → Element
store_value t e = record e {
  value = t;
  selection_start = some (length t);
  selection_end = some (length t);
}

-- A document without handlers.
abbrev quiet : Host
quiet = record {
  dispatch = λ el event w. (w, false);
  focus = λ el w. record w { page = record w.page { active = some el } };
  click = λ el w. w;
  set_value = λ el t w. update_element el (store_value t) w;
  check = λ el w. update_element el (λ e. record e { checked = true }) w;
  scroll_to = λ c position. record c { scroll_top = position };
  lower = λ t. t;
  upper = λ t. t;
  get_renderable = λ el. none;
  renderable = λ name. none;
}

all_at :
    (P : Element → Type 0) (xs : List Element)
    → All P xs
    → (el : ℕ) (e : Element) → get_elem? xs el ≡ some e
    → P e
all_at P [] a el e h = cc
all_at P (x ∷ xs) a zero e h = subst P (some-injective x e h) a.0
all_at P (x ∷ xs) a (suc el) e h = all_at P xs a.1 el e h

abbrev plain_key : Text → Key
plain_key name = record {
  name = name;
  code = none;
  ctrl = false;
  shift = false;
  option = false;
  meta = false;
  repeated = none;
}

-- The page is a tree of depth 1.
sample-IsTree : IsTree sample_page
sample-IsTree = record {
  depth = λ el. if el == 0 then 0 else 1;
  bounded = λ el. ground arith;
  above = above;
}
  where
    above :
        (el up : ℕ) (e : Element)
        → get_elem? sample_page.nodes el ≡ some e
        → e.parent ≡ some up
        → (if up == 0 then 0 else 1) < (if el == 0 then 0 else 1)
    above zero up e q h = cc (some-injective plain_element e q)
    above (suc el) up e q h = ground (
      arith,
      all_at (λ x. x.parent ≡ some 0) (tail sample_page.nodes)
          (refl, (refl, (refl, (refl, (refl, tt))))) el e q,
    )

is_element_visible_example :
    (is_element_visible (walk_fuel sample_page) sample_page 5 ≡ true) ↔ (¬ (HiddenBy sample_page 5))
is_element_visible_example = is_element_visible_lem sample_page 5 sample-IsTree

hidden_button : is_element_visible (walk_fuel sample_page) sample_page 5 ≡ false
unfolding is_element_visible
hidden_button = refl

-- The trap holds the button, the field and the checked radio.
focusable_sample : get_focusable_elements sample_page (some 0) ≡ 1 ∷ 2 ∷ 4 ∷ []
unfolding get_focusable_elements is_element_visible is_inside matches_focusable is_radio_input
    group_name text_eq
focusable_sample = refl

tab_stays_in_trap_example :
    (el : ℕ) × (tab_destination forward sample ≡ some el)
    × (is_inside (walk_fuel sample_page) sample_page 0 el ≡ true)
tab_stays_in_trap_example =
    tab_stays_in_trap forward sample 0 refl refl (rw focusable_sample (omega arith))

quiet-LeavesTrap : LeavesTrap quiet
quiet-LeavesTrap = record {
  focus = λ el w. refl;
  click = λ el w. refl;
  check = λ el w. trap_state-update_element el (λ e. record e { checked = true }) w;
  set_value = λ el t w. trap_state-update_element el (store_value t) w;
  dispatch = λ el event w. refl;
}

trap_state-handle_keypress_example :
    trap_state (handle_keypress quiet (record (plain_key (codes "w")) { ctrl = true }) sample).world
    ≡ (true, (some 0, some 1))
unfolding text_eq
trap_state-handle_keypress_example =
    trap_state-handle_keypress quiet (record (plain_key (codes "w")) { ctrl = true }) sample
      quiet-LeavesTrap refl

-- A trap on the container, set while the field has the focus, and Tab pressed once.
abbrev tabbed : World
tabbed = presses quiet (plain_key (codes "tab") ∷ []) (activate_trap 0 sample)

tabbed_focus : current_focus tabbed ≡ some 4
unfolding move_focus tab_destination next_index get_focusable_elements is_element_visible is_inside
    matches_focusable is_radio_input group_name text_eq scroll_into_view get_focused_element
    activate_trap handle_keypress after_keydown escape_stage accesskey_stage tab_stage
    dispatch_keyboard_event
tabbed_focus = refl

tabbed_allowed :
    (w : World) → (dispatch_keyboard_event quiet 4 keydown (plain_key (codes "escape")) w).1 ≡ false
unfolding dispatch_keyboard_event
tabbed_allowed w = ground arith

escape_restores_focus_example :
    ((handle_keypress quiet (plain_key (codes "escape")) tabbed).world.trap_container ≡ none)
    × ((handle_keypress quiet (plain_key (codes "escape")) tabbed).world.pre_trap_focus ≡ none)
    × (current_focus (handle_keypress quiet (plain_key (codes "escape")) tabbed).world ≡ some 2)
    × ((handle_keypress quiet (plain_key (codes "escape")) tabbed).prevented ≡ true)
unfolding dispatch_keyboard_event get_focused_element text_eq
escape_restores_focus_example =
    escape_restores_focus quiet (plain_key (codes "escape")) sample 2 0 4
      (plain_key (codes "tab") ∷ []) quiet-LeavesTrap (λ v h. rw h refl) refl (refl, tt) refl refl
      tabbed_focus (tabbed_allowed tabbed)

radio_group_once_example :
    count (in_group sample_page (codes "size")) (get_focusable_elements sample_page none)
    ≡ (if any (in_group sample_page (codes "size")) (candidates sample_page none) then 1 else 0)
radio_group_once_example = radio_group_once sample_page none (codes "size")

visited_are_allowed_example :
    (all
        (is_inside (walk_fuel sample_page) sample_page 0)
        (get_focusable_elements sample_page (some 0))
      ≡ true)
    × (all
          (λ el.
            on_element sample_page el matches_focusable
            && is_element_visible (walk_fuel sample_page) sample_page el)
          (get_focusable_elements sample_page none)
        ≡ true)
visited_are_allowed_example = visited_are_allowed sample_page 0 none

get_focusable_elements-IsSorted_example :
    IsSorted sample_page.order (get_focusable_elements sample_page (some 0))
get_focusable_elements-IsSorted_example = get_focusable_elements-IsSorted sample_page (some 0)

next_index-opposite_example : next_index backward 3 (some (next_index forward 3 (some 2))) ≡ 2
next_index-opposite_example = next_index-opposite forward 3 2 (omega arith)

backward_example : IsWordStart (codes "ab cd ") (find_word_boundary_backward (codes "ab cd "))
backward_example = find_word_boundary_backward_lem (codes "ab cd ")

backward_runs : find_word_boundary_backward (codes "ab cd ") ≡ 3
unfolding find_word_boundary_backward
backward_runs = refl

forward_example : IsWordEnd (codes " ab cd") (find_word_boundary_forward (codes " ab cd"))
forward_example = find_word_boundary_forward_lem (codes " ab cd")

forward_runs : find_word_boundary_forward (codes " ab cd") ≡ 3
unfolding find_word_boundary_forward
forward_runs = refl

shortcut-IsEdit_example : Each (codes "ab cd") 4 (shortcut true false (codes "w") (codes "ab cd") 4)
shortcut-IsEdit_example = shortcut-IsEdit (codes "w") (codes "ab cd") 4 (omega arith) true false

shortcut-insert_text_example :
    (shortcut true false
        (codes "b")
        (value_after (insert_text (120 ∷ []) (codes "ab") 1 1) (codes "ab"))
        (cursor_after (insert_text (120 ∷ []) (codes "ab") 1 1) 1)
      ≡ some (move 1))
    × (shortcut true false
          (codes "d")
          (value_after (insert_text (120 ∷ []) (codes "ab") 1 1) (codes "ab"))
          1
        ≡ some (write (codes "ab") 1))
shortcut-insert_text_example = shortcut-insert_text 120 (codes "ab") 1 (omega arith)

scroll_position_shows_example :
    (scroll_after (scroll_position 30 2 0 24) 0 ≤ 30)
    × (32 ≤ scroll_after (scroll_position 30 2 0 24) 0 + 24)
    × (scroll_position 30 2 (scroll_after (scroll_position 30 2 0 24) 0) 24 ≡ none)
scroll_position_shows_example = scroll_position_shows 30 2 0 24 (omega arith)

scroll_position_nearest_example :
    (scroll_after (scroll_position 30 2 0 24) 0 - 0)
      + (0 - scroll_after (scroll_position 30 2 0 24) 0)
    ≤ (20 - 0) + (0 - 20)
scroll_position_nearest_example =
    scroll_position_nearest 30 2 0 24 20 (omega arith) (omega arith) (omega arith)

calls-IsLinked_example :
    IsLinked (calls quiet (attach_to 3 ∷ activate_focus_trap 0 ∷ detach_from ∷ []) sample)
calls-IsLinked_example =
    calls-IsLinked quiet (attach_to 3 ∷ activate_focus_trap 0 ∷ detach_from ∷ []) sample
      (λ el v. refl) (inr (7, refl))

detach-attach_example : detach (attach 3 sample) ≡ record sample {
  attached = false;
  current_renderer = none;
  has_document = false;
  has_node_map = false;
  has_handler = false;
  trap_container = none;
  pre_trap_focus = none;
  scroll_dom_container = none;
  scroll_tui_container = none;
  subscribed = [];
}
detach-attach_example = detach-attach 3 sample (inr (7, refl))
