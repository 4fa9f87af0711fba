-- ===== src/EventRelay/Focus/Visits.antt =====
-- The focusable elements against the candidates: which of them Tab visits, and how often.
use effect_native.Prelude.{
  ℕ, ◌+◌, ◌≡◌, refl, ◌∙◌, ◌⊎◌, inl, inr, Bool, true, false, not, ◌&&◌, ◌||◌, Option, none, some,
  List, [], ◌∷◌, ◌++◌, Text, text_eq_refl, get_elem?, all, all-append, any, keep, if◌then◌else◌,
  Bool-cases, Option-cases, arith,
}
use effect_native.EventRelay.Page.{
  Element, Page, on_element, is_element_visible, is_inside, walk_fuel, matches_focusable,
  is_radio_input,
}
use effect_native.EventRelay.Focus.{
  candidates, group_name, Groups, add_radio, collect, push_targets, get_focusable_elements,
}
use effect_native.EventRelay.Focus.Order.{
  count, count-append, count-sort_by_order, all-sort_by_order, IsSorted, sort_by_order-IsSorted,
}
use effect_native.EventRelay.Focus.Groups.{
  is_radio, in_group, in_group_only, has_name, has_name-add_radio, Grouped, add_radio-Grouped,
  all-add_radio, count-push_targets, count_other-push_targets, all-push_targets,
}

module _ (page : Page) where
  -- One round of the loop takes a radio into its group, or another element into the list.
  collect_round :
      (el : ℕ) (els : List ℕ) (groups : Groups) (result : List ℕ)
      → ((e : Element) × (in_group page (group_name e) el ≡ true)
          × (collect page (el ∷ els) groups result
              ≡ collect page els (add_radio (group_name e) el groups) result))
        ⊎ ((is_radio page el ≡ false)
            × (collect page (el ∷ els) groups result ≡ collect page els groups (result ++ el ∷ [])))
  unfolding collect
  collect_round el els groups result = elim (Option-cases (get_elem? page.nodes el)) [
    | inl e ↦ inr (ground arith, rw (e, collect) refl)
    | inr (e, q) ↦ elim (Bool-cases (is_radio_input e)) [
      | inl radio ↦ inl (e, ground (arith, text_eq_refl (group_name e)), ground arith)
      | inr other ↦ inr (ground arith, ground arith)
    ]
  ]

  in_group_other : (g : Text) (el : ℕ) → is_radio page el ≡ false → in_group page g el ≡ false
  in_group_other g el h = ground arith

  collect-Grouped :
      (els : List ℕ) (groups : Groups) (result : List ℕ)
      → Grouped page groups
      → Grouped page (collect page els groups result).0
  collect-Grouped [] groups result k = unfold collect in k
  collect-Grouped (el ∷ els) groups result k = elim (collect_round el els groups result) [
    | inl (e, mine, step) ↦ rw step (
        collect-Grouped els (add_radio (group_name e) el groups) result
          (add_radio-Grouped page (group_name e) el groups mine k))
    | inr (other, step) ↦ rw step (collect-Grouped els groups (result ++ el ∷ []) k)
  ]

  has_name-collect :
      (g : Text) (els : List ℕ) (groups : Groups) (result : List ℕ)
      → has_name g (collect page els groups result).0
        ≡ (has_name g groups || any (in_group page g) els)
  has_name-collect g [] groups result = unfold collect in ground arith
  has_name-collect g (el ∷ els) groups result = elim (collect_round el els groups result) [
    | inl (e, mine, step) ↦ rw step (
        has_name-collect g els (add_radio (group_name e) el groups) result
        ∙ ground (
          arith,
          has_name-add_radio g (group_name e) el groups,
          in_group_only page (group_name e) g el mine,
        ))
    | inr (other, step) ↦ rw step (
        has_name-collect g els groups (result ++ el ∷ [])
        ∙ ground (arith, in_group_other g el other))
  ]

  count-collect :
      (g : Text) (els : List ℕ) (groups : Groups) (result : List ℕ)
      → count (in_group page g) (collect page els groups result).1 ≡ count (in_group page g) result
  count-collect g [] groups result = unfold collect in refl
  count-collect g (el ∷ els) groups result = elim (collect_round el els groups result) [
    | inl (e, mine, step) ↦
        rw step (count-collect g els (add_radio (group_name e) el groups) result)
    | inr (other, step) ↦ rw step (
        count-collect g els groups (result ++ el ∷ [])
        ∙ ground
            (arith, count-append (in_group page g) result (el ∷ []), in_group_other g el other))
  ]

  count_other-collect :
      (p : ℕ → Bool) (els : List ℕ) (groups : Groups) (result : List ℕ)
      → count (λ el. not (is_radio page el) && p el) (collect page els groups result).1
        ≡ count (λ el. not (is_radio page el) && p el) result
          + count (λ el. not (is_radio page el) && p el) els
  count_other-collect p [] groups result = unfold collect in omega arith
  count_other-collect p (el ∷ els) groups result = elim (collect_round el els groups result) [
    | inl (e, mine, step) ↦ rw step (
        count_other-collect p els (add_radio (group_name e) el groups) result
        ∙ ground (arith, in_group_only page (group_name e) (group_name e) el mine))
    | inr (other, step) ↦ rw step (
        count_other-collect p els groups (result ++ el ∷ [])
        ∙ ground (arith, count-append (λ el. not (is_radio page el) && p el) result (el ∷ [])))
  ]

  all-collect :
      (p : ℕ → Bool) (els : List ℕ) (groups : Groups) (result : List ℕ)
      → all p els ≡ true
      → all (λ group. all p group.1) groups ≡ true
      → all p result ≡ true
      → (all (λ group. all p group.1) (collect page els groups result).0 ≡ true)
        × (all p (collect page els groups result).1 ≡ true)
  all-collect p [] groups result h hg hr = unfold collect in (hg, hr)
  all-collect p (el ∷ els) groups result h hg hr = elim (collect_round el els groups result) [
    | inl (e, mine, step) ↦ rw step (
        all-collect p els (add_radio (group_name e) el groups) result (ground arith)
          (all-add_radio p (group_name e) el groups (ground arith) hg) hr)
    | inr (other, step) ↦ rw step (
        all-collect p els groups (result ++ el ∷ []) (ground arith) hg
          (ground (arith, all-append p result (el ∷ []))))
  ]

-- Tab visits exactly one radio of each group that has a candidate, and none of another group.
pub radio_group_once :
    (page : Page) (trap : Option ℕ) (g : Text)
    → count (in_group page g) (get_focusable_elements page trap)
      ≡ (if any (in_group page g) (candidates page trap) then 1 else 0)
unfolding get_focusable_elements has_name
radio_group_once page trap g =
    let els = candidates page trap in
    count-sort_by_order (in_group page g) page.order _
    ∙ (count-push_targets page g (collect page els [] []).0 (collect page els [] []).1
          (collect-Grouped page els [] [] tt)
        ∙ ground (arith, count-collect page g els [] [], has_name-collect page g els [] []))

-- Whatever the test, Tab visits the elements that are no radios as often as they are candidates.
pub others_all_visited :
    (page : Page) (trap : Option ℕ) (p : ℕ → Bool)
    → count (λ el. not (is_radio page el) && p el) (get_focusable_elements page trap)
      ≡ count (λ el. not (is_radio page el) && p el) (candidates page trap)
unfolding get_focusable_elements
others_all_visited page trap p =
    let els = candidates page trap in
    count-sort_by_order (λ el. not (is_radio page el) && p el) page.order _
    ∙ (count_other-push_targets page p (collect page els [] []).0 (collect page els [] []).1
          (collect-Grouped page els [] [] tt)
        ∙ (count_other-collect page p els [] [] ∙ omega arith))

-- What holds of every candidate holds of every element that Tab visits.
pub all-get_focusable_elements :
    (page : Page) (trap : Option ℕ) (p : ℕ → Bool)
    → all p (candidates page trap) ≡ true
    → all p (get_focusable_elements page trap) ≡ true
unfolding get_focusable_elements
all-get_focusable_elements page trap p h =
    let els = candidates page trap in
    let (in_groups, in_list) = all-collect page p els [] [] h refl refl in
    all-sort_by_order p page.order _
    ∙ all-push_targets page p (collect page els [] []).0 (collect page els [] []).1
        (collect-Grouped page els [] [] tt) in_groups in_list

all-keep :
    (p q : ℕ → Bool) (xs : List ℕ) → ((x : ℕ) → q x ≡ true → p x ≡ true) → all p (keep q xs) ≡ true
all-keep p q [] h = refl
all-keep p q (x ∷ xs) h = ground (arith, h x, all-keep p q xs h)

-- Whatever the page, under a trap every element that Tab visits is a descendant of the trap's
-- container, and with or without one every element that it visits matches the selector and is visible.
pub visited_are_allowed :
    (page : Page) (root : ℕ) (trap : Option ℕ)
    → (all (is_inside (walk_fuel page) page root) (get_focusable_elements page (some root)) ≡ true)
      × (all
            (λ el.
              on_element page el matches_focusable && is_element_visible (walk_fuel page) page el)
            (get_focusable_elements page trap)
          ≡ true)
unfolding candidates
visited_are_allowed page root trap = (
  all-get_focusable_elements page (some root) (is_inside (walk_fuel page) page root) (
      all-keep _ _ page.order (λ el h.
        and_middle (on_element page el matches_focusable) _
          (is_element_visible (walk_fuel page) page el) h)),
  all-get_focusable_elements page trap _ (
      all-keep _ _ page.order (λ el h.
        and_outer (on_element page el matches_focusable)
          (elim trap [ none ↦ true | some up ↦ is_inside (walk_fuel page) page up el ])
          (is_element_visible (walk_fuel page) page el) h)),
)
  where
    and_middle : (a b c : Bool) → (a && b && c) ≡ true → b ≡ true
    and_middle a b c h = ground arith

    and_outer : (a b c : Bool) → (a && b && c) ≡ true → (a && c) ≡ true
    and_outer a b c h = ground arith

-- Tab visits the elements in document order.
pub get_focusable_elements-IsSorted :
    (page : Page) (trap : Option ℕ) → IsSorted page.order (get_focusable_elements page trap)
unfolding get_focusable_elements
get_focusable_elements-IsSorted page trap =
    let (groups, result) = collect page (candidates page trap) [] [] in
    sort_by_order-IsSorted page.order (push_targets page groups result)
