-- ===== src/EventRelay/Fields/Frame.antt =====
-- The writes to a field and the events, and the state of the focus trap.
use effect_native.Prelude.{
  ℕ, ◌≡◌, refl, ◌∙◌, Bool, true, false, ◌&&◌, Option, none, some, Text, codes, if◌then◌else◌, arith,
}
use effect_native.Prelude.Int.{ℤ, pos, negsuc}
use effect_native.EventRelay.Focus.{Direction}
use effect_native.EventRelay.Page.{Element, on_element}
use effect_native.EventRelay.World.{Event, change, Host, World}
use effect_native.EventRelay.Keys.{dispatch_event}
use effect_native.EventRelay.Readline.{Effect, stay, move, write}
use effect_native.EventRelay.Fields.{
  update_element, set_tab_index, set_range, supports_selection, set_selection_position,
  apply_effect, get_radio_group, enter_radio, radio_neighbour, move_radio_focus,
}

-- Whether there is a document, the trap, and the element to which the focus returns behind the trap.
abbrev pub trap_state : World → Bool × (Option ℕ × Option ℕ)
trap_state w = (w.has_document, (w.trap_container, w.pre_trap_focus))

-- The handlers of the document do not call the methods of the relay.
pub record LeavesTrap (host : Host) : Type 0 where
  pub focus : (el : ℕ) (w : World) → trap_state (host.focus el w) ≡ trap_state w
  pub click : (el : ℕ) (w : World) → trap_state (host.click el w) ≡ trap_state w
  pub check : (el : ℕ) (w : World) → trap_state (host.check el w) ≡ trap_state w
  pub set_value :
      (el : ℕ) (t : Text) (w : World) → trap_state (host.set_value el t w) ≡ trap_state w
  pub dispatch :
      (el : ℕ) (event : Event) (w : World) → trap_state (host.dispatch el event w).0 ≡ trap_state w

pub trap_state-update_element :
    (el : ℕ) (f : Element → Element) (w : World) → trap_state (update_element el f w) ≡ trap_state w
unfolding update_element
trap_state-update_element el f w = ground arith

trap_state-set_tab_index :
    (i : ℤ) (t : Text) (el : ℕ) (w : World) → trap_state (set_tab_index i t el w) ≡ trap_state w
unfolding set_tab_index
trap_state-set_tab_index i t el w =
    trap_state-update_element el (λ e. record e { tab_index = i; tabindex_attribute = some t }) w

trap_state-set_selection_position :
    (host : Host) (el start end_ : ℕ) (w : World)
    → trap_state (set_selection_position host el start end_ w) ≡ trap_state w
unfolding set_selection_position
trap_state-set_selection_position host el start end_ w =
    at (on_element w.page el (supports_selection host))
  where
    at :
        (b : Bool)
        → trap_state (if b then update_element el (set_range start end_) w else w) ≡ trap_state w
    at true = trap_state-update_element el (set_range start end_) w
    at false = refl

module _ {host : Host} (leaves : LeavesTrap host) where
  pub trap_state-sent :
      (b : Bool) (el : ℕ) (event : Event) (w : World)
      → trap_state (if b then host.dispatch el event w else (w, false)).0 ≡ trap_state w
  trap_state-sent true el event w = leaves.dispatch el event w
  trap_state-sent false el event w = refl

  pub trap_state-dispatch_event :
      (el : ℕ) (event : Event) (w : World)
      → trap_state (dispatch_event host el event w) ≡ trap_state w
  unfolding dispatch_event
  trap_state-dispatch_event el event w = at (w.has_document && w.page.has_view)
    where
      at : (b : Bool) → trap_state (if b then (host.dispatch el event w).0 else w) ≡ trap_state w
      at true = leaves.dispatch el event w
      at false = refl

  pub trap_state-apply_effect :
      (el : ℕ) (edit : Effect) (event : World → World) (w : World)
      → ((v : World) → trap_state (event v) ≡ trap_state v)
      → trap_state (apply_effect host el edit event w) ≡ trap_state w
  unfolding apply_effect
  trap_state-apply_effect el stay event w sent = refl
  trap_state-apply_effect el (move c) event w sent = trap_state-set_selection_position host el c c w
  trap_state-apply_effect el (write t c) event w sent =
      sent _
      ∙ trap_state-set_selection_position host el c c (host.set_value el t w)
      ∙ leaves.set_value el t w

  trap_state-enter_radio :
      (radio new_radio : ℕ) (w : World)
      → trap_state (enter_radio host radio new_radio w) ≡ trap_state w
  unfolding enter_radio
  trap_state-enter_radio radio new_radio w =
      let left = set_tab_index (negsuc 0) (codes "-1") radio w in
      let entered = set_tab_index (pos 0) (codes "0") new_radio left in
      let checked = host.check new_radio entered in
      trap_state-dispatch_event new_radio change (host.focus new_radio checked)
      ∙ leaves.focus new_radio checked
      ∙ leaves.check new_radio entered
      ∙ trap_state-set_tab_index (pos 0) (codes "0") new_radio left
      ∙ trap_state-set_tab_index (negsuc 0) (codes "-1") radio w

  pub trap_state-move_radio_focus :
      (d : Direction) (radio : ℕ) (e : Element) (w : World)
      → trap_state (move_radio_focus host d radio e w) ≡ trap_state w
  unfolding move_radio_focus
  trap_state-move_radio_focus d radio e w = at (radio_neighbour d (get_radio_group radio e w) radio)
    where
      at :
          (o : Option ℕ)
          → trap_state (elim o [ none ↦ w | some new_radio ↦ enter_radio host radio new_radio w ])
            ≡ trap_state w
      at none = refl
      at (some new_radio) = trap_state-enter_radio radio new_radio w
