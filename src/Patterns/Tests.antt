-- ===== src/Patterns/Tests.antt =====
-- Small lists and trees, and the theorems at them.
use effect_native.Prelude.{
  ℕ, ◌+◌, ◌*◌, ◌==◌, ==_iff, ◌≡◌, refl, ◌↔◌, true, List, [], ◌∷◌, ◌++◌, map, Text, codes, text_eq,
  ◌||◌,
}
use effect_native.Patterns.Thing.{Thing, text_lt, has_tag, add_tag, normalize_tags}
use effect_native.Patterns.Thing.Laws.{is_sorted, add_tag_lem, normalize_tags_lem}
use effect_native.Patterns.LinkedList
use effect_native.Patterns.LinkedList.{
  Linked, empty, node, size, to_array, append, equals_list, reduce, map_list,
}
use effect_native.Patterns.LinkedList.Laws.{
  IsSized, array_equals, append_lem, equals_list_lem, reduce-map_list,
}
use effect_native.Patterns.Tree
use effect_native.Patterns.Tree.{
  Tree, tree, no_trees, more_trees, append_child, map_tree, equals_tree,
}
use effect_native.Patterns.Tree.Laws.{append_child_lem, map_tree_lem, reduce_lem, array_reduce}
use effect_native.Patterns.Tree.Equality.{equals_tree_lem}

abbrev tagged : Thing ℕ
tagged = record { id = codes "a"; label = codes "b"; value = 1; tags = codes "x" ∷ codes "z" ∷ [] }

add_tag_lem_example :
    (is_sorted (add_tag tagged (codes "y")).tags ≡ true)
    × ((u : Text)
        → has_tag (add_tag tagged (codes "y")).tags u
          ≡ (text_eq (codes "y") u || has_tag tagged.tags u))
    × (add_tag (add_tag tagged (codes "y")) (codes "y") ≡ add_tag tagged (codes "y"))
unfolding text_lt
add_tag_lem_example = add_tag_lem tagged (codes "y") refl

normalize_tags_lem_example :
    (is_sorted (normalize_tags (codes "b" ∷ codes "a" ∷ codes "b" ∷ [])) ≡ true)
    × ((u : Text)
        → has_tag (normalize_tags (codes "b" ∷ codes "a" ∷ codes "b" ∷ [])) u
          ≡ has_tag (codes "b" ∷ codes "a" ∷ codes "b" ∷ []) u)
normalize_tags_lem_example = normalize_tags_lem (codes "b" ∷ codes "a" ∷ codes "b" ∷ [])

abbrev two : Linked ℕ
two = node 2 7 (node 1 8 empty)

abbrev three : List ℕ
three = 7 ∷ 8 ∷ 9 ∷ []

append_lem_example :
    IsSized (append two 9)
    × (size (append two 9) ≡ 3)
    × (to_array (append two 9) ≡ to_array two ++ (9 ∷ []))
append_lem_example = append_lem two 9 (refl, (refl, tt))

equals_list_lem_example :
    equals_list (λ x y. x == y) two two ≡ array_equals (λ x y. x == y) (to_array two) (to_array two)
equals_list_lem_example =
    equals_list_lem (λ x y. x == y) two two (refl, (refl, tt)) (refl, (refl, tt))

reduce-map_list_example :
    reduce (map_list two (λ x i. x + i)) 0 (λ n x i. n + x * i)
    ≡ LinkedList.Laws.array_reduce 0 (λ n x i. n + (x + i) * i) 0 (to_array two)
reduce-map_list_example = reduce-map_list two (λ x i. x + i) 0 (λ n x i. n + x * i)

-- 1 above 2 and 3.
abbrev branch : Tree ℕ
branch = tree 1 (more_trees (tree 2 no_trees 1) (more_trees (tree 3 no_trees 1) no_trees)) 3

append_child_lem_example :
    Tree.Laws.IsSized (append_child branch branch)
    × (Tree.size (append_child branch branch) ≡ 6)
    × (Tree.to_array (append_child branch branch) ≡ Tree.to_array branch ++ Tree.to_array branch)
unfolding Tree.calculate_size
append_child_lem_example =
    append_child_lem branch branch (refl, ((refl, tt), ((refl, tt), tt)))
      (refl, ((refl, tt), ((refl, tt), tt)))

map_tree_lem_example :
    Tree.Laws.IsSized (map_tree branch (λ x. x + 1))
    × (Tree.to_array (map_tree branch (λ x. x + 1)) ≡ map (λ x. x + 1) (Tree.to_array branch))
map_tree_lem_example = map_tree_lem branch (λ x. x + 1)

equals_tree_lem_example : (equals_tree (λ x y. x == y) branch branch ≡ true) ↔ (branch ≡ branch)
equals_tree_lem_example = equals_tree_lem (λ x y. x == y) ==_iff branch branch
