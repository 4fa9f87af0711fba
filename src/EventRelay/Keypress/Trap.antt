-- ===== src/EventRelay/Keypress/Trap.antt =====
-- Tab inside a focus trap, and the ways in which a key press begins.
use effect_native.Prelude.{
  ℕ, zero, suc, ◌<◌, ◌≡◌, refl, Bool, true, false, none, some, List, [], ◌∷◌, length, get_elem?,
  all, arith,
}
use effect_native.EventRelay.Page.{is_inside, walk_fuel}
use effect_native.EventRelay.Focus.{Direction, next_index, get_focusable_elements}
use effect_native.EventRelay.Focus.Ring.{next_index-lt}
use effect_native.EventRelay.Focus.Visits.{visited_are_allowed}
use effect_native.EventRelay.World.{Key, keydown, Host, World}
use effect_native.EventRelay.Keys.{dispatch_keyboard_event}
use effect_native.EventRelay.Navigation.{current_focus, focusables, tab_destination, place_of}
use effect_native.EventRelay.Keypress.{outcome, from_stages, after_keydown, handle_keypress}

get_elem?-total : (xs : List ℕ) (i : ℕ) → i < length xs → (x : ℕ) × (get_elem? xs i ≡ some x)
get_elem?-total [] i h = absurd (omega arith)
get_elem?-total (x ∷ xs) zero h = (x, refl)
get_elem?-total (x ∷ xs) (suc i) h = get_elem?-total xs i (omega arith)

all-get_elem? :
    (p : ℕ → Bool) (xs : List ℕ) (i x : ℕ) → all p xs ≡ true → get_elem? xs i ≡ some x → p x ≡ true
all-get_elem? p [] i x h e = cc
all-get_elem? p (y ∷ xs) zero x h e = ground arith
all-get_elem? p (y ∷ xs) (suc i) x h e = all-get_elem? p xs i x (ground arith) e

-- Where there is something focusable there is a destination, and it is focusable.
tab_destination-some :
    (d : Direction) (w : World)
    → 0 < length (focusables w)
    → (el : ℕ) × (tab_destination d w ≡ some el)
      × ((p : ℕ → Bool) → all p (focusables w) ≡ true → p el ≡ true)
unfolding tab_destination
tab_destination-some d w h =
    let els = focusables w in
    let place = place_of els (current_focus w) in
    let (el, at) =
      get_elem?-total els (next_index d (length els) place)
        (next_index-lt d (length els) place h) in
    (el, at, λ p k. all-get_elem? p els (next_index d (length els) place) el k at)

-- With a trap on `root` and something focusable in it, Tab and Shift+Tab have a destination, and it is
-- a descendant of `root`.
pub tab_stays_in_trap :
    (d : Direction) (w : World) (root : ℕ)
    → w.has_document ≡ true
    → w.trap_container ≡ some root
    → 0 < length (get_focusable_elements w.page (some root))
    → (el : ℕ) × (tab_destination d w ≡ some el)
      × (is_inside (walk_fuel w.page) w.page root el ≡ true)
tab_stays_in_trap d w root doc trap some_element =
    let els : focusables w ≡ get_focusable_elements w.page (some root) = cc in
    let (el, at, allowed) = tab_destination-some d w (rw els some_element) in
    (
      el,
      at,
      allowed (is_inside (walk_fuel w.page) w.page root)
          (rw els (visited_are_allowed w.page root none).0),
    )

pub handle_keypress-unfocused :
    (host : Host) (key : Key) (w : World)
    → current_focus w ≡ none
    → handle_keypress host key w ≡ outcome w false
unfolding handle_keypress
handle_keypress-unfocused host key w nothing = rw (nothing, handle_keypress) refl

-- A key press whose keydown a handler prevents ends there.
pub handle_keypress-prevented :
    (host : Host) (key : Key) (w : World) (target : ℕ)
    → current_focus w ≡ some target
    → (dispatch_keyboard_event host target keydown key w).1 ≡ true
    → handle_keypress host key w
      ≡ outcome (dispatch_keyboard_event host target keydown key w).0 true
unfolding handle_keypress
handle_keypress-prevented host key w target focus prevented =
    rw (focus, handle_keypress) (rw prevented refl)

-- A key press whose keydown no handler prevents goes through the stages.
pub handle_keypress-allowed :
    (host : Host) (key : Key) (w : World) (target : ℕ)
    → current_focus w ≡ some target
    → (dispatch_keyboard_event host target keydown key w).1 ≡ false
    → handle_keypress host key w
      ≡ from_stages host
          (after_keydown host key target (dispatch_keyboard_event host target keydown key w).0)
          (dispatch_keyboard_event host target keydown key w).0
unfolding handle_keypress
handle_keypress-allowed host key w target focus allowed =
    rw (focus, handle_keypress) (rw allowed refl)
