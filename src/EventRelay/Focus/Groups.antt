-- ===== src/EventRelay/Focus/Groups.antt =====
-- The map of the radio groups, and the radios that are pushed for it.
use effect_native.Prelude.{
  ℕ, ◌+◌, ◌≡◌, refl, ◌∙◌, ◌≢◌, inl, inr, Bool, true, false, not, ◌&&◌, ◌||◌, Option, none, some,
  List, [], ◌∷◌, ◌++◌, Text, text_eq, text_eq_refl, text_eq_sound, text_eq_iff, get_elem?, all,
  all-append, find, if◌then◌else◌, Bool-cases, arith,
}
use effect_native.EventRelay.Page.{Element, Page, on_element, is_radio_input}
use effect_native.EventRelay.Focus.{
  group_name, Groups, add_radio, is_checked, has_tab_index_zero, tab_target, push_targets,
}
use effect_native.EventRelay.Focus.Order.{count, count-append}

abbrev pub is_radio : Page → ℕ → Bool
is_radio page el = on_element page el is_radio_input

-- A radio of the group with this name.
abbrev pub in_group : Page → Text → ℕ → Bool
in_group page g el = on_element page el (λ e. is_radio_input e && text_eq (group_name e) g)

-- A radio stands in the group of its own name only.
pub in_group_only :
    (page : Page) (n g : Text) (el : ℕ)
    → in_group page n el ≡ true
    → (is_radio page el ≡ true) × (in_group page g el ≡ text_eq n g)
in_group_only page n g el = of_element (get_elem? page.nodes el)
  where
    of_element :
        (o : Option Element)
        → elim o [ none ↦ false | some e ↦ is_radio_input e && text_eq (group_name e) n ] ≡ true
        → (elim o [ none ↦ false | some e ↦ is_radio_input e ] ≡ true)
          × (elim o [ none ↦ false | some e ↦ is_radio_input e && text_eq (group_name e) g ]
              ≡ text_eq n g)
    of_element none h = cc
    of_element (some e) h = ground (arith, text_eq_iff (group_name e) n)

unfoldable pub has_name : Text → Groups → Bool
has_name g [] = false
has_name g ((n, _) ∷ groups) = text_eq n g || has_name g groups

-- Each group holds a radio, only radios of its name, and the names differ.
abbrev pub Grouped : Page → Groups → Type 0
Grouped page [] = Unit
Grouped page ((n, radios) ∷ groups) =
    (radios ≢ [])
    × (all (in_group page n) radios ≡ true)
    × (has_name n groups ≡ false)
    × Grouped page groups

pub has_name-add_radio :
    (g name : Text) (el : ℕ) (groups : Groups)
    → has_name g (add_radio name el groups) ≡ (has_name g groups || text_eq name g)
unfolding has_name add_radio
has_name-add_radio g name el [] = ground arith
has_name-add_radio g name el ((n, radios) ∷ groups) =
    ground (arith, has_name-add_radio g name el groups, text_eq_iff n name)

pub add_radio-Grouped :
    (page : Page) (name : Text) (el : ℕ) (groups : Groups)
    → in_group page name el ≡ true
    → Grouped page groups
    → Grouped page (add_radio name el groups)
unfolding add_radio has_name
add_radio-Grouped page name el [] h k = ((λ e. cc), ground arith, refl, tt)
add_radio-Grouped page name el ((n, radios) ∷ groups) h (some_radio, mine, fresh, rest) =
    elim (Bool-cases (text_eq n name)) [
      | inl same ↦ rw same (
          (
            append-ne-nil radios el,
            ground
                (arith, all-append (in_group page n) radios (el ∷ []), text_eq_sound n name same),
            fresh,
            rest,
          ))
      | inr differs ↦ rw differs (
          (
            some_radio,
            mine,
            ground (arith, has_name-add_radio n name el groups, text_eq_iff name n, text_eq_refl n),
            add_radio-Grouped page name el groups h rest,
          ))
    ]
  where
    append-ne-nil : (xs : List ℕ) (x : ℕ) → xs ++ x ∷ [] ≢ []
    append-ne-nil [] x e = cc
    append-ne-nil (y ∷ xs) x e = cc

all-find :
    (p q : ℕ → Bool) (xs : List ℕ) (a : ℕ) → all p xs ≡ true → find q xs ≡ some a → p a ≡ true
all-find p q [] a h e = cc
all-find p q (x ∷ xs) a h e = ground (arith, all-find p q xs a)

-- The target of a group is one of its radios.
all-tab_target :
    (page : Page) (p : ℕ → Bool) (radios : List ℕ)
    → radios ≢ []
    → all p radios ≡ true
    → (t : ℕ) × (tab_target page radios ≡ some t) × (p t ≡ true)
unfolding tab_target
all-tab_target page p [] ne h = absurd (ne refl)
all-tab_target page p (r ∷ radios) ne h =
    choose (find checked (r ∷ radios)) (find at_zero (r ∷ radios)) refl refl
  where
    checked : ℕ → Bool
    checked el = on_element page el is_checked

    at_zero : ℕ → Bool
    at_zero el = on_element page el has_tab_index_zero

    choose :
        (x y : Option ℕ)
        → find checked (r ∷ radios) ≡ x
        → find at_zero (r ∷ radios) ≡ y
        → (t : ℕ) × (elim x [
          | some el ↦ some el
          | none ↦ elim y [ some el ↦ some el | none ↦ some r ]
        ]
            ≡ some t)
          × (p t ≡ true)
    choose (some t) y hx hy = (t, refl, all-find p checked (r ∷ radios) t h hx)
    choose none (some t) hx hy = (t, refl, all-find p at_zero (r ∷ radios) t h hy)
    choose none none hx hy = (r, refl, ground arith)

-- What the targets of the groups add to a count.
module _ (page : Page) where
  pub count-push_targets :
      (g : Text) (groups : Groups) (result : List ℕ)
      → Grouped page groups
      → count (in_group page g) (push_targets page groups result)
        ≡ count (in_group page g) result + (if has_name g groups then 1 else 0)
  unfolding push_targets has_name
  count-push_targets g [] result k = omega arith
  count-push_targets g ((n, radios) ∷ groups) result (some_radio, mine, fresh, rest) =
      let (t, is_target, in_n) = all-tab_target page (in_group page n) radios some_radio mine in
      rw is_target (
        count-push_targets g groups (result ++ t ∷ []) rest
        ∙ ground (
          arith,
          count-append (in_group page g) result (t ∷ []),
          in_group_only page n g t in_n,
          text_eq_sound n g,
        ))

  -- Elements that are no radios are not touched by them.
  pub count_other-push_targets :
      (p : ℕ → Bool) (groups : Groups) (result : List ℕ)
      → Grouped page groups
      → count (λ el. not (is_radio page el) && p el) (push_targets page groups result)
        ≡ count (λ el. not (is_radio page el) && p el) result
  unfolding push_targets
  count_other-push_targets p [] result k = refl
  count_other-push_targets p ((n, radios) ∷ groups) result (some_radio, mine, fresh, rest) =
      let (t, is_target, in_n) = all-tab_target page (in_group page n) radios some_radio mine in
      rw is_target (
        count_other-push_targets p groups (result ++ t ∷ []) rest
        ∙ ground (
          arith,
          count-append (λ el. not (is_radio page el) && p el) result (t ∷ []),
          in_group_only page n n t in_n,
        ))

  pub all-push_targets :
      (p : ℕ → Bool) (groups : Groups) (result : List ℕ)
      → Grouped page groups
      → all (λ group. all p group.1) groups ≡ true
      → all p result ≡ true
      → all p (push_targets page groups result) ≡ true
  unfolding push_targets
  all-push_targets p [] result k hg hr = hr
  all-push_targets p ((n, radios) ∷ groups) result (some_radio, mine, fresh, rest) hg hr =
      let (t, is_target, in_n) = all-tab_target page p radios some_radio (ground arith) in
      rw is_target (
        all-push_targets p groups (result ++ t ∷ []) rest (ground arith)
          (ground (arith, all-append p result (t ∷ []))))

pub all-add_radio :
    (p : ℕ → Bool) (name : Text) (el : ℕ) (groups : Groups)
    → p el ≡ true
    → all (λ group. all p group.1) groups ≡ true
    → all (λ group. all p group.1) (add_radio name el groups) ≡ true
unfolding add_radio
all-add_radio p name el [] h k = ground arith
all-add_radio p name el ((n, radios) ∷ groups) h k =
    ground (arith, all-append p radios (el ∷ []), all-add_radio p name el groups)
