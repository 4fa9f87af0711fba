-- ===== src/EventRelay/Scroll/Laws.antt =====
-- Where `scrollIntoView` scrolls to.
use effect_native.Prelude.{ℕ, ◌+◌, ◌-◌, ◌≤◌, ◌≡◌, Option, none, some, arith}
use effect_native.EventRelay.Scroll.{scroll_position}

abbrev pub scroll_after : Option ℕ → ℕ → ℕ
scroll_after none scroll_top = scroll_top
scroll_after (some position) scroll_top = position

module _ (top height scroll_top viewport : ℕ) where
  abbrev after : ℕ
  after = scroll_after (scroll_position top height scroll_top viewport) scroll_top

  -- An element that fits the viewport lies within it afterwards, whatever the position was; scrolling
  -- once more asks for nothing.
  pub scroll_position_shows :
      height ≤ viewport
      → (after ≤ top)
        × (top + height ≤ after + viewport)
        × (scroll_position top height after viewport ≡ none)
  unfolding scroll_position
  scroll_position_shows h = ground arith

  -- No scroll position that shows the element is nearer than the one that is chosen.
  pub scroll_position_nearest :
      (other : ℕ)
      → height ≤ viewport
      → other ≤ top
      → top + height ≤ other + viewport
      → (after - scroll_top) + (scroll_top - after) ≤ (other - scroll_top) + (scroll_top - other)
  unfolding scroll_position
  scroll_position_nearest other h k l = ground arith
