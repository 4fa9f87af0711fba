-- ===== src/NodeMap.antt =====
-- packages/opentui-dom/src/bridge/node-map.ts: the map between DOM nodes and renderables. Both are
-- named by numbers, and a node may have been collected, after which no reference to it is left.
mod Laws
mod Tests
use effect_native.Prelude.{ℕ, ◌==◌, Bool, true, false, Option, none, some, if◌then◌else◌}

-- `domToRenderable` and `renderableToNode`
pub record NodeMap : Type 0 where
  pub dom_to_renderable : ℕ → Option ℕ
  pub renderable_to_node : ℕ → Option ℕ

abbrev pub put_at : (ℕ → Option ℕ) → ℕ → Option ℕ → ℕ → Option ℕ
put_at f k v x = if k == x then v else f x

-- `WeakRef.deref`, on a reference that may be missing
abbrev pub deref : (ℕ → Bool) → Option ℕ → Option ℕ
deref alive none = none
deref alive (some n) = if alive n then some n else none

abbrev pub clean_up : (ℕ → Option ℕ) → ℕ → Option ℕ → ℕ → Option ℕ
clean_up f node none = f
clean_up f node (some existing) = if existing == node then f else put_at f existing none

unfoldable pub set_renderable : (ℕ → Bool) → ℕ → ℕ → NodeMap → NodeMap
set_renderable alive node renderable m = record {
  dom_to_renderable =
      put_at (clean_up m.dom_to_renderable node (deref alive (m.renderable_to_node renderable)))
        node (some renderable);
  renderable_to_node = put_at m.renderable_to_node renderable (some node);
}

unfoldable pub get_renderable : ℕ → NodeMap → Option ℕ
get_renderable node m = m.dom_to_renderable node

-- A stale entry is deleted.
unfoldable pub get_node : (ℕ → Bool) → ℕ → NodeMap → Option ℕ × NodeMap
get_node alive renderable m = elim (m.renderable_to_node renderable) [
  | none ↦ (none, m)
  | some node ↦
      if alive node
      then (some node, m)
      else (none, record m { renderable_to_node = put_at m.renderable_to_node renderable none })
]

abbrev pub forget : (ℕ → Option ℕ) → Option ℕ → ℕ → Option ℕ
forget f none = f
forget f (some renderable) = put_at f renderable none

unfoldable pub delete : ℕ → NodeMap → NodeMap
delete node m = record {
  dom_to_renderable = put_at m.dom_to_renderable node none;
  renderable_to_node = forget m.renderable_to_node (m.dom_to_renderable node);
}

unfoldable pub has : ℕ → NodeMap → Bool
has node m = elim (m.dom_to_renderable node) [ none ↦ false | some r ↦ true ]

abbrev pub create_node_map : NodeMap
create_node_map = record { dom_to_renderable = λ n. none; renderable_to_node = λ r. none }
