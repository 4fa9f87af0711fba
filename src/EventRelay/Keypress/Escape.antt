-- ===== src/EventRelay/Keypress/Escape.antt =====
-- A focus trap that is set and left by Escape, whatever keys are pressed in between.
use effect_native.Prelude.{
  ℕ, ◌≡◌, refl, ap, ◌∙◌, true, false, none, some, List, All, [], ◌∷◌, codes, text_eq,
}
use effect_native.EventRelay.World.{Key, keydown, Host, World}
use effect_native.EventRelay.Keys.{dispatch_keyboard_event}
use effect_native.EventRelay.Navigation.{current_focus, refocus, activate_trap, deactivate_trap}
use effect_native.EventRelay.Keypress.{
  Outcome, outcome, escape_stage, after_keydown, handle_keypress,
}
use effect_native.EventRelay.Fields.Frame.{trap_state, LeavesTrap}
use effect_native.EventRelay.Keypress.Frame.{
  trap_state-handle_keypress, trap_state-dispatch_keyboard_event,
}
use effect_native.EventRelay.Keypress.Trap.{handle_keypress-allowed}

-- Key presses, one behind the other.
abbrev pub presses : Host → List Key → World → World
presses host [] w = w
presses host (key ∷ keys) w = presses host keys (handle_keypress host key w).world

abbrev pub IsNotEscape : Host → Key → Type 0
IsNotEscape host key = text_eq (host.lower key.name) (codes "escape") ≡ false

trap_state-presses :
    {host : Host} (leaves : LeavesTrap host) (keys : List Key) (w : World)
    → All (IsNotEscape host) keys
    → trap_state (presses host keys w) ≡ trap_state w
trap_state-presses leaves [] w others = refl
trap_state-presses {host = host} leaves (key ∷ keys) w (other, others) =
    trap_state-presses leaves keys (handle_keypress host key w).world others
    ∙ trap_state-handle_keypress host key w leaves other

-- Escape, with a trap and an element to which the focus returns.
escape_stage-released :
    (host : Host) (w : World) (root f : ℕ)
    → LeavesTrap host
    → trap_state w ≡ (true, (some root, some f))
    → ((v : World) → v.has_document ≡ true → current_focus (host.focus f v) ≡ some f)
    → (o : Outcome) × (escape_stage host (codes "escape") w ≡ some o)
      × (o.world.trap_container ≡ none)
      × (o.world.pre_trap_focus ≡ none)
      × (current_focus o.world ≡ some f)
      × (o.prevented ≡ true)
unfolding escape_stage text_eq
escape_stage-released host w root f leaves state focuses =
    let doc : w.has_document ≡ true = ap (λ s. s.0) state in
    let trap : w.trap_container ≡ some root = ap (λ s. s.1.0) state in
    let before : w.pre_trap_focus ≡ some f = ap (λ s. s.1.1) state in
    let released = record w { trap_container = none } in
    let focused : refocus host w.pre_trap_focus released ≡ host.focus f released =
      ap (λ o. refocus host o released) before in
    (
      outcome (deactivate_trap host w) true,
      rw (trap, escape_stage, text_eq) refl,
      ap (λ v. v.trap_container) focused ∙ ap (λ s. s.1.0) (leaves.focus f released),
      refl,
      ap current_focus focused ∙ focuses released doc,
      refl,
    )

-- A trap is set while the element `f` has the focus, any keys but Escape are pressed, and then Escape,
-- whose keydown no handler of the document prevents: behind it there is neither a trap nor a remembered
-- element, `f` has the focus again, and the terminal's default is prevented; provided that `focus()` of
-- `f` gives it the focus, that something has the focus when Escape is pressed, and that handlers of the
-- document do not call the methods of the relay.
pub escape_restores_focus :
    (host : Host) (key : Key) (w : World) (f root target : ℕ) (keys : List Key)
    → LeavesTrap host
    → ((v : World) → v.has_document ≡ true → current_focus (host.focus f v) ≡ some f)
    → host.lower key.name ≡ codes "escape"
    → All (IsNotEscape host) keys
    → w.has_document ≡ true
    → current_focus w ≡ some f
    → current_focus (presses host keys (activate_trap root w)) ≡ some target
    → (dispatch_keyboard_event host target keydown key (presses host keys (activate_trap root w))).1
      ≡ false
    → let o = handle_keypress host key (presses host keys (activate_trap root w)) in
      (o.world.trap_container ≡ none)
      × (o.world.pre_trap_focus ≡ none)
      × (current_focus o.world ≡ some f)
      × (o.prevented ≡ true)
unfolding activate_trap
escape_restores_focus host key w f root target keys leaves focuses name others doc focus focus'
      allowed =
    let v = presses host keys (activate_trap root w) in
    let w' = (dispatch_keyboard_event host target keydown key v).0 in
    let state : trap_state w' ≡ (true, (some root, some f)) =
      trap_state-dispatch_keyboard_event leaves target key v
      ∙ trap_state-presses leaves keys (activate_trap root w) others
      ∙ cc in
    let (o, returns, trap, before, back, prevents) =
      escape_stage-released host w' root f leaves state focuses in
    let ends : handle_keypress host key v ≡ o =
      handle_keypress-allowed host key v target focus' allowed
      ∙ unfold after_keydown in rw (name, after_keydown) (rw returns refl) in
    rw ends ((trap, before, back, prevents))
