-- ===== src/EventRelay/Lifecycle/Laws.antt =====
-- The subscription of the key handler through attaching and detaching.
use effect_native.Prelude.{
  ℕ, ◌≡◌, refl, ◌∙◌, ◌⊎◌, inl, inr, Bool, true, false, Option, none, some, List, [], ◌∷◌, arith,
}
use effect_native.EventRelay.World.{Host, World}
use effect_native.EventRelay.Navigation.{refocus}
use effect_native.EventRelay.Lifecycle.{
  detach, attach, Call, attach_to, detach_from, activate_focus_trap, deactivate_focus_trap,
  set_scroll, call, calls,
}

-- What ties the relay to a renderer and its document.
pub record Link : Type 0 where
  pub attached : Bool
  pub renderer : Option ℕ
  pub has_document : Bool
  pub has_handler : Bool
  pub subscribed : List ℕ

abbrev pub link : World → Link
link w = record {
  attached = w.attached;
  renderer = w.current_renderer;
  has_document = w.has_document;
  has_handler = w.has_handler;
  subscribed = w.subscribed;
}

abbrev pub loose : Link
loose = record {
  attached = false;
  renderer = none;
  has_document = false;
  has_handler = false;
  subscribed = [];
}

abbrev pub linked_to : ℕ → Link
linked_to r = record {
  attached = true;
  renderer = some r;
  has_document = true;
  has_handler = true;
  subscribed = r ∷ [];
}

-- Detached with no subscription, or attached with one, to the current renderer.
abbrev pub IsLinked : World → Type 0
IsLinked w = (link w ≡ loose) ⊎ ((r : ℕ) × (link w ≡ linked_to r))

-- The end of a list of calls as far as the subscription goes.
abbrev pub link_after : Call → Link → Link
link_after (attach_to r) l = linked_to r
link_after detach_from l = loose
link_after _ l = l

module _ (host : Host) (keeps : (el : ℕ) (w : World) → link (host.focus el w) ≡ link w) where
  link-call : (c : Call) (w : World) → IsLinked w → link (call host c w) ≡ link_after c (link w)
  unfolding call
  link-call (attach_to r) w h = ground arith
  link-call detach_from w h = ground arith
  link-call (activate_focus_trap container) w h = refl
  link-call deactivate_focus_trap w h = of_focus w.pre_trap_focus
    where
      of_focus :
          (o : Option ℕ) → link (refocus host o (record w { trap_container = none })) ≡ link w
      of_focus none = refl
      of_focus (some el) = keeps el (record w { trap_container = none })
  link-call (set_scroll dom_container box) w h = refl

  IsLinked-call : (c : Call) (w : World) → IsLinked w → IsLinked (call host c w)
  IsLinked-call c w h = by_call c h (link-call c w h)
    where
      by_call :
          (c' : Call)
          → IsLinked w
          → link (call host c w) ≡ link_after c' (link w)
          → IsLinked (call host c w)
      by_call (attach_to r) k e = inr (r, e)
      by_call detach_from k e = inl e
      by_call (activate_focus_trap x) (inl l) e = inl (e ∙ l)
      by_call (activate_focus_trap x) (inr (r, l)) e = inr (r, e ∙ l)
      by_call deactivate_focus_trap (inl l) e = inl (e ∙ l)
      by_call deactivate_focus_trap (inr (r, l)) e = inr (r, e ∙ l)
      by_call (set_scroll x y) (inl l) e = inl (e ∙ l)
      by_call (set_scroll x y) (inr (r, l)) e = inr (r, e ∙ l)

-- If `focus()` does not touch the relay, then from a linked relay every sequence of calls leaves it
-- linked: detached with no subscription anywhere, or attached with exactly one, to its renderer.
pub calls-IsLinked :
    (host : Host) (cs : List Call) (w : World)
    → ((el : ℕ) (v : World) → link (host.focus el v) ≡ link v)
    → IsLinked w
    → IsLinked (calls host cs w)
unfolding calls
calls-IsLinked host [] w keeps h = h
calls-IsLinked host (c ∷ cs) w keeps h =
    calls-IsLinked host cs (call host c w) keeps (IsLinked-call host keeps c w h)

-- From a linked relay, attaching and detaching again leaves no subscription and nothing in any variable
-- of the closure, whatever stood there before; the page is as it was.
pub detach-attach :
    (r : ℕ) (w : World)
    → IsLinked w
    → detach (attach r w) ≡ record w {
      attached = false;
      current_renderer = none;
      has_document = false;
      has_node_map = false;
      has_handler = false;
      trap_container = none;
      pre_trap_focus = none;
      scroll_dom_container = none;
      scroll_tui_container = none;
      subscribed = [];
    }
unfolding attach
detach-attach r w h = ground arith
