-- ===== src/NodeMap/Laws.antt =====
-- The two directions of the map of packages/opentui-dom/src/bridge/node-map.ts agree.
use effect_native.Prelude.{ℕ, ◌==◌, ==_iff, refl, ◌≡◌, Bool, true, some, arith}
use effect_native.NodeMap.{NodeMap, set_renderable, get_renderable, get_node, delete}

-- The renderable of a node that is alive leads back to the node.
abbrev pub IsLinked : (ℕ → Bool) → NodeMap → Type 0
IsLinked alive m =
    (n r : ℕ) → alive n ≡ true → m.dom_to_renderable n ≡ some r → m.renderable_to_node r ≡ some n

set_renderable-IsLinked :
    (alive : ℕ → Bool) (node renderable : ℕ) (m : NodeMap)
    → IsLinked alive m
    → IsLinked alive (set_renderable alive node renderable m)
unfolding set_renderable
set_renderable-IsLinked alive node renderable m h n r a e = ground (arith, a, e, h n r a)

get_node-IsLinked :
    (alive : ℕ → Bool) (renderable : ℕ) (m : NodeMap)
    → IsLinked alive m
    → IsLinked alive (get_node alive renderable m).1
unfolding get_node
get_node-IsLinked alive renderable m h n r a e = ground (arith, a, e, h n r a)

delete-IsLinked :
    (alive : ℕ → Bool) (node : ℕ) (m : NodeMap)
    → IsLinked alive m
    → alive node ≡ true
    → IsLinked alive (delete node m)
unfolding delete
delete-IsLinked alive node m h b n r a e = ground (arith, a, e, b, h n r a, h node r b)

-- If the renderables of the nodes that are alive lead back to them, this is so after every operation on a
-- node that is alive.
pub operations-IsLinked :
    (alive : ℕ → Bool) (node renderable : ℕ) (m : NodeMap)
    → alive node ≡ true
    → IsLinked alive m
    → IsLinked alive (set_renderable alive node renderable m)
      × IsLinked alive (get_node alive renderable m).1
      × IsLinked alive (delete node m)
operations-IsLinked alive node renderable m a h = (
  set_renderable-IsLinked alive node renderable m h,
  get_node-IsLinked alive renderable m h,
  delete-IsLinked alive node m h a,
)

-- After a node that is alive was given a renderable, each of the two is found from the other.
pub lookup-set_renderable :
    (alive : ℕ → Bool) (node renderable : ℕ) (m : NodeMap)
    → alive node ≡ true
    → (get_renderable node (set_renderable alive node renderable m) ≡ some renderable)
      × ((get_node alive renderable (set_renderable alive node renderable m)).0 ≡ some node)
unfolding set_renderable get_renderable get_node
lookup-set_renderable alive node renderable m a = (rw (same node), ground (arith, a))
  where
    same : (n : ℕ) → (n == n) ≡ true
    same n = (==_iff n n).1 refl
