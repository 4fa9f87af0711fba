-- ===== src/EventRelay/Lifecycle.antt =====
-- The methods that `createEventRelay` returns: attaching to a renderer and detaching from it.
pub mod Laws
use effect_native.Prelude.{
  ℕ, ◌&&◌, Bool, true, false, Option, none, some, List, [], ◌∷◌, ◌==◌, if◌then◌else◌,
}
use effect_native.EventRelay.World.{Host, World, ScrollContainer}
use effect_native.EventRelay.Navigation.{activate_trap, deactivate_trap}

-- `off` takes one subscription of the handler away.
unfoldable pub remove_first : ℕ → List ℕ → List ℕ
remove_first r [] = []
remove_first r (x ∷ xs) = if x == r then xs else x ∷ remove_first r xs

abbrev unsubscribe : Option ℕ → Bool → List ℕ → List ℕ
unsubscribe (some r) true subscribed = remove_first r subscribed
unsubscribe _ _ subscribed = subscribed

unfoldable pub detach : World → World
unfolding remove_first
detach w =
    if w.attached
    then record w {
      subscribed = unsubscribe w.current_renderer w.has_handler w.subscribed;
      current_renderer = none;
      has_document = false;
      has_node_map = false;
      has_handler = false;
      attached = false;
      trap_container = none;
      pre_trap_focus = none;
      scroll_dom_container = none;
      scroll_tui_container = none;
    }
    else w

unfoldable pub attach : ℕ → World → World
unfolding detach
attach renderer w =
    let free = if w.attached then detach w else w in
    record free {
      current_renderer = some renderer;
      has_document = true;
      has_node_map = true;
      attached = true;
      has_handler = true;
      subscribed = renderer ∷ free.subscribed;
    }

unfoldable pub set_scroll_container : ℕ → ScrollContainer → World → World
set_scroll_container dom_container tui_scroll_box w = record w {
  scroll_dom_container = some dom_container;
  scroll_tui_container = some tui_scroll_box;
}

-- The calls of the interface `EventRelay`.
pub data Call : Type 0 where
  attach_to : ℕ → Call
  detach_from : Call
  activate_focus_trap : ℕ → Call
  deactivate_focus_trap : Call
  set_scroll : ℕ → ScrollContainer → Call

module _ (host : Host) where
  unfoldable pub call : Call → World → World
  unfolding attach detach activate_trap deactivate_trap set_scroll_container
  call (attach_to renderer) w = attach renderer w
  call detach_from w = detach w
  call (activate_focus_trap container) w = activate_trap container w
  call deactivate_focus_trap w = deactivate_trap host w
  call (set_scroll dom_container box) w = set_scroll_container dom_container box w

  unfoldable pub calls : List Call → World → World
  unfolding call
  calls [] w = w
  calls (c ∷ cs) w = calls cs (call c w)
