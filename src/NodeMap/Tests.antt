-- ===== src/NodeMap/Tests.antt =====
-- A renderable that moves from one node to another.
use effect_native.Prelude.{ℕ, refl, Bool, true}
use effect_native.NodeMap.{create_node_map, set_renderable, get_node, delete}
use effect_native.NodeMap.Laws.{IsLinked, operations-IsLinked}

abbrev all_alive : ℕ → Bool
all_alive n = true

operations-IsLinked_example :
    IsLinked all_alive (set_renderable all_alive 1 7 create_node_map)
    × IsLinked all_alive (get_node all_alive 7 create_node_map).1
    × IsLinked all_alive (delete 1 create_node_map)
operations-IsLinked_example = operations-IsLinked all_alive 1 7 create_node_map refl (λ n r a e. cc)
