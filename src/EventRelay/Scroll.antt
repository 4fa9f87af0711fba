-- ===== src/EventRelay/Scroll.antt =====
-- `scrollIntoView` of event-relay.ts.
pub mod Laws
use effect_native.Prelude.{ℕ, zero, suc, ◌+◌, ◌-◌, Option, none, some, ltb, ◌==◌, if◌then◌else◌}
use effect_native.EventRelay.World.{ScrollContainer, Renderable, Host, World}

-- `n ?? 0`
abbrev or_zero : Option ℕ → ℕ
or_zero none = 0
or_zero (some n) = n

-- The sum of `_y` up the chain of parents, at most `depth` of them, up to the scroll content.
unfoldable pub accumulate_y : Host → ℕ → Renderable → ℕ → ℕ
accumulate_y host zero r top = top
accumulate_y host (suc depth) r top =
    let top' = top + or_zero r.internal_y in
    elim r.translate_y [
      | some t ↦ top'
      | none ↦ elim r.parent [
        | none ↦ top'
        | some up ↦ elim (host.renderable up) [
          | none ↦ top'
          | some parent ↦ accumulate_y host depth parent top'
        ]
      ]
    ]

abbrev pub max_depth : ℕ
max_depth = 20

unfoldable pub element_top : Host → Renderable → ℕ
unfolding accumulate_y
element_top host r = elim r.internal_y [ none ↦ r.y | some y ↦ accumulate_y host max_depth r 0 ]

-- The new scroll position, if one is asked for. Rows are natural numbers: an element above the first row
-- of the content, whose row is negative, is left out.
unfoldable pub scroll_position : (top height scroll_top viewport_height : ℕ) → Option ℕ
scroll_position top height scroll_top viewport_height =
    if ltb (scroll_top + viewport_height) (top + height)
    then some (top + height - viewport_height)
    else if ltb top scroll_top
    then some top
    else none

abbrev scroll_container_to : Host → ScrollContainer → ℕ → ScrollContainer
scroll_container_to host c position =
    if c.has_scroll_to then host.scroll_to c position else record c { scroll_top = position }

unfoldable pub scroll_renderable : Host → Renderable → ScrollContainer → World → World
unfolding element_top scroll_position
scroll_renderable host r c w =
    let viewport_height = or_zero c.viewport_height in
    if viewport_height == 0
    then w
    else elim (scroll_position (element_top host r) r.height c.scroll_top viewport_height) [
      | none ↦ w
      | some position ↦ record w {
        scroll_tui_container = some (scroll_container_to host c position);
      }
    ]

unfoldable pub scroll_into_view : Host → ℕ → World → World
unfolding scroll_renderable
scroll_into_view host element w = elim w.scroll_tui_container [
  | none ↦ w
  | some c ↦
      if w.has_node_map
      then elim (host.get_renderable element) [
        | none ↦ w
        | some name ↦ elim (host.renderable name) [
          | none ↦ w
          | some r ↦ scroll_renderable host r c w
        ]
      ]
      else w
]
