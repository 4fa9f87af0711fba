-- ===== src/Tailwind/Laws.antt =====
-- What packages/opentui-dom/src/bridge/tailwind-mapper.ts makes of a list of classes.
use mathlib.Core.Path.{subst}
use mathlib.Core.Option.{some-injective}
use effect_native.Prelude.{
  ◌≡◌, ◌↔◌, refl, ap, sym, ◌∙◌, Bool-cases, inl, inr, true, false, none, some, List, [], ◌∷◌, ◌++◌,
  Text, any, is_space, ◌||◌, arith,
}
use effect_native.Tailwind.Values.{lookup}
use effect_native.Tailwind.Mapper.{
  class_outcome, tailwind_to_tui, MapResult, class_list, pieces, non_empty,
}
use effect_native.Tailwind.Loop.{
  or_else, or_else_assoc, or_else-none, set_by, last_setting, unknown_in, throws, map_classes_lem,
  map_classes-throws,
}

pieces-append :
    (a b : Text)
    → pieces (a ++ (32 ∷ b)) ≡ ((pieces a).0, (pieces a).1 ++ ((pieces b).0 ∷ (pieces b).1))
unfolding pieces is_space
pieces-append [] b = refl
pieces-append (c ∷ a) b = ground (arith, pieces-append a b)

non_empty-append : (l m : List Text) → non_empty (l ++ m) ≡ non_empty l ++ non_empty m
unfolding non_empty
non_empty-append [] m = refl
non_empty-append ([] ∷ l) m = non_empty-append l m
non_empty-append ((c ∷ s) ∷ l) m = ap (λ t. (c ∷ s) ∷ t) (non_empty-append l m)

pub class_list-append : (a b : Text) → class_list (a ++ (32 ∷ b)) ≡ class_list a ++ class_list b
unfolding class_list
class_list-append a b =
    rw (pieces-append a b)
      (non_empty-append ((pieces a).0 ∷ (pieces a).1) ((pieces b).0 ∷ (pieces b).1))

last_setting-append :
    (cs ds : List Text) (k : Text)
    → last_setting (cs ++ ds) k ≡ or_else (last_setting ds k) (last_setting cs k)
last_setting-append [] ds k = sym (or_else-none (last_setting ds k))
last_setting-append (cls ∷ cs) ds k =
    ap (λ o. or_else o (set_by (class_outcome cls) k)) (last_setting-append cs ds k)
    ∙ or_else_assoc (last_setting ds k) (last_setting cs k) (set_by (class_outcome cls) k)

any-append : (cs ds : List Text) → any throws (cs ++ ds) ≡ (any throws cs || any throws ds)
any-append [] ds = refl
any-append (c ∷ cs) ds = ground (arith, any-append cs ds)

unknown_in-append : (cs ds : List Text) → unknown_in (cs ++ ds) ≡ unknown_in cs ++ unknown_in ds
unknown_in-append [] ds = refl
unknown_in-append (c ∷ cs) ds = ground (arith, unknown_in-append cs ds)

-- The result that the classes have by themselves.
pub record IsResult (classes : Text) (r : MapResult) : Type 0 where
  pub styles : (k : Text) → lookup r.styles k ≡ last_setting (class_list classes) k
  pub unmapped : r.unmapped ≡ unknown_in (class_list classes)

-- Unless there is a class on which it throws, `tailwindToTui` gives a result, in which each style has the
-- value that the last class to set it gives it, and the unmapped classes are the unknown ones in order.
pub tailwind_to_tui_lem :
    (classes : Text)
    → any throws (class_list classes) ≡ false
    → (r : MapResult) × (tailwind_to_tui classes ≡ some r) × IsResult classes r
unfolding tailwind_to_tui lookup
tailwind_to_tui_lem classes h =
    let (r, ok, d) =
      map_classes_lem (class_list classes) (record { styles = []; unmapped = [] }) h in
    (
      r,
      ok,
      record {
        styles = λ k. d.styles k ∙ or_else-none (last_setting (class_list classes) k);
        unmapped = d.unmapped;
      },
    )

-- `tailwindToTui` throws exactly when one of the classes does so.
pub tailwind_to_tui-throws :
    (classes : Text) → (tailwind_to_tui classes ≡ none) ↔ (any throws (class_list classes) ≡ true)
unfolding tailwind_to_tui
tailwind_to_tui-throws classes = (
  one_throws,
  λ h. map_classes-throws (class_list classes) (record { styles = []; unmapped = [] }) h,
)
  where
    one_throws : tailwind_to_tui classes ≡ none → any throws (class_list classes) ≡ true
    one_throws e = elim (Bool-cases (any throws (class_list classes))) [
      | inl h ↦ h
      | inr h ↦ let (r, ok, d) = tailwind_to_tui_lem classes h in cc (e, ok)
    ]

from_run :
    (classes : Text) (r : MapResult)
    → tailwind_to_tui classes ≡ some r
    → (any throws (class_list classes) ≡ false) × IsResult classes r
from_run classes r e = elim (Bool-cases (any throws (class_list classes))) [
  | inl h ↦ let none_there = (tailwind_to_tui-throws classes).1 h in cc (none_there, e)
  | inr h ↦
      let (r', ok, d) = tailwind_to_tui_lem classes h in
      (h, subst (λ q. IsResult classes q) (some-injective r' r (sym ok ∙ e)) d)
]

-- The result of two texts of classes with a space between them: the styles of the second are put over
-- those of the first, and the unmapped classes of both stand behind each other.
pub tailwind_to_tui-append :
    (a b : Text) (r s : MapResult)
    → tailwind_to_tui a ≡ some r
    → tailwind_to_tui b ≡ some s
    → (t : MapResult) × (tailwind_to_tui (a ++ (32 ∷ b)) ≡ some t)
      × ((k : Text) → lookup t.styles k ≡ or_else (lookup s.styles k) (lookup r.styles k))
      × (t.unmapped ≡ r.unmapped ++ s.unmapped)
tailwind_to_tui-append a b r s e e' =
    let (h, d) = from_run a r e in
    let (h', d') = from_run b s e' in
    let (t, ok, u) = tailwind_to_tui_lem (a ++ (32 ∷ b)) (fine h h') in
    (t, ok, λ k. styled d d' u k, listed d d' u)
  where
    fine :
        any throws (class_list a) ≡ false
        → any throws (class_list b) ≡ false
        → any throws (class_list (a ++ (32 ∷ b))) ≡ false
    fine h h' = rw (class_list-append a b, any-append (class_list a) (class_list b), h, h')

    styled :
        {t : MapResult}
        → IsResult a r
        → IsResult b s
        → IsResult (a ++ (32 ∷ b)) t
        → (k : Text) → lookup t.styles k ≡ or_else (lookup s.styles k) (lookup r.styles k)
    styled d d' u k = rw (
      u.styles k,
      class_list-append a b,
      last_setting-append (class_list a) (class_list b) k,
      d.styles k,
      d'.styles k,
    )

    listed :
        {t : MapResult}
        → IsResult a r
        → IsResult b s
        → IsResult (a ++ (32 ∷ b)) t
        → t.unmapped ≡ r.unmapped ++ s.unmapped
    listed d d' u = rw (
      u.unmapped,
      class_list-append a b,
      unknown_in-append (class_list a) (class_list b),
      d.unmapped,
      d'.unmapped,
    )
