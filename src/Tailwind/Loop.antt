-- ===== src/Tailwind/Loop.antt =====
-- The loop of `tailwindToTui` of packages/opentui-dom/src/bridge/tailwind-mapper.ts over the classes.
use effect_native.Prelude.{
  ◌≡◌, refl, ap, sym, ◌∙◌, Bool, Bool-cases, inl, inr, true, false, Option, none, some, List, [],
  ◌∷◌, ◌++◌, Text, text_eq, text_eq_sound, any, if◌then◌else◌, arith,
}
use effect_native.Tailwind.Values.{Value, Styles, lookup, assign_one, assign}
use effect_native.Tailwind.Mapper.{
  Outcome, mapped, unknown, thrown, class_outcome, map_classes, MapResult,
}

-- The value that is there, or else the other one.
abbrev pub or_else {ℓ} : {A : Type ℓ} → Option A → Option A → Option A
or_else none o = o
or_else (some a) o = some a

pub or_else_assoc :
    {A : Type 0} (a b c : Option A) → or_else (or_else a b) c ≡ or_else a (or_else b c)
or_else_assoc none b c = refl
or_else_assoc (some a) b c = refl

pub or_else-none : {A : Type 0} (a : Option A) → or_else a none ≡ a
or_else-none none = refl
or_else-none (some a) = refl

-- The last value that is set for a name in some styles.
abbrev pub last_of : Styles → Text → Option Value
unfolding text_eq
last_of [] k = none
last_of ((l, v) ∷ s) k = or_else (last_of s k) (if text_eq l k then some v else none)

-- What a class sets a name to.
abbrev pub set_by : Outcome → Text → Option Value
set_by (mapped s) k = last_of s k
set_by unknown k = none
set_by thrown k = none

abbrev pub is_unknown : Outcome → Bool
is_unknown (mapped s) = false
is_unknown unknown = true
is_unknown thrown = false

abbrev pub is_thrown : Outcome → Bool
is_thrown (mapped s) = false
is_thrown unknown = false
is_thrown thrown = true

-- The value that the last class to set a name gives it.
abbrev pub last_setting : List Text → Text → Option Value
last_setting [] k = none
last_setting (cls ∷ rest) k = or_else (last_setting rest k) (set_by (class_outcome cls) k)

-- The classes that are not known, in their order.
abbrev pub unknown_in : List Text → List Text
unknown_in [] = []
unknown_in (cls ∷ rest) =
    let others = unknown_in rest in if is_unknown (class_outcome cls) then cls ∷ others else others

-- A class on which the program throws.
abbrev pub throws : Text → Bool
throws cls = is_thrown (class_outcome cls)

pub lookup-assign_one :
    (s : Styles) (l : Text) (v : Value) (k : Text)
    → lookup (assign_one s l v) k ≡ or_else (if text_eq l k then some v else none) (lookup s k)
unfolding lookup assign_one
lookup-assign_one [] l v k = ground arith
lookup-assign_one ((m, a) ∷ s) l v k = elim (Bool-cases (text_eq m l)) [
  | inl e ↦ rw (e, text_eq_sound m l e) (ground arith)
  | inr e ↦ rw e (ground (arith, lookup-assign_one s l v k, differ))
]
  where
    differ : text_eq m k ≡ true → text_eq l k ≡ true → text_eq m l ≡ true
    differ p q = ap (text_eq m) (text_eq_sound l k q) ∙ p

pub lookup-assign :
    (t s : Styles) (k : Text) → lookup (assign s t) k ≡ or_else (last_of t k) (lookup s k)
unfolding assign last_of lookup
lookup-assign [] s k = refl
lookup-assign ((l, v) ∷ t) s k =
    lookup-assign t (assign_one s l v) k
    ∙ ap (or_else (last_of t k)) (lookup-assign_one s l v k)
    ∙ sym (or_else_assoc (last_of t k) (if text_eq l k then some v else none) (lookup s k))

pub append_assoc : (a b c : List Text) → (a ++ b) ++ c ≡ a ++ (b ++ c)
append_assoc [] b c = refl
append_assoc (x ∷ a) b c = ap (λ t. x ∷ t) (append_assoc a b c)

pub append_nil : (a : List Text) → a ++ [] ≡ a
append_nil [] = refl
append_nil (x ∷ a) = ap (λ t. x ∷ t) (append_nil a)

-- The result after some classes, from the result before them.
pub record Follows (cs : List Text) (r r' : MapResult) : Type 0 where
  pub styles : (k : Text) → lookup r'.styles k ≡ or_else (last_setting cs k) (lookup r.styles k)
  pub unmapped : r'.unmapped ≡ r.unmapped ++ unknown_in cs

-- One class more, which gives the result `next`.
pub one_more :
    (cls : Text) (cs : List Text) (r next : MapResult)
    → ((k : Text)
        → lookup next.styles k ≡ or_else (set_by (class_outcome cls) k) (lookup r.styles k))
    → next.unmapped ≡ r.unmapped ++ unknown_in (cls ∷ [])
    → (r' : MapResult) × (map_classes cs next ≡ some r') × Follows cs next r'
    → (r' : MapResult) × (map_classes cs next ≡ some r') × Follows (cls ∷ cs) r r'
one_more cls cs r next h u (r', e, d) = (r', e, record { styles = styled; unmapped = listed })
  where
    unknown_first : unknown_in (cls ∷ []) ++ unknown_in cs ≡ unknown_in (cls ∷ cs)
    unknown_first = ground arith

    listed : r'.unmapped ≡ r.unmapped ++ unknown_in (cls ∷ cs)
    listed =
        d.unmapped
        ∙ ap (λ l. l ++ unknown_in cs) u
        ∙ append_assoc r.unmapped (unknown_in (cls ∷ [])) (unknown_in cs)
        ∙ ap (λ l. r.unmapped ++ l) unknown_first

    styled :
        (k : Text) → lookup r'.styles k ≡ or_else (last_setting (cls ∷ cs) k) (lookup r.styles k)
    styled k =
        d.styles k
        ∙ ap (or_else (last_setting cs k)) (h k)
        ∙ sym (or_else_assoc (last_setting cs k) (set_by (class_outcome cls) k) (lookup r.styles k))

pub later_throws :
    (cls : Text) (cs : List Text) (o : Outcome)
    → class_outcome cls ≡ o
    → is_thrown o ≡ false
    → any throws cs ≡ any throws (cls ∷ cs)
later_throws cls cs o e n = rw (e, n)

pub map_classes_lem :
    (cs : List Text) (r : MapResult)
    → any throws cs ≡ false
    → (r' : MapResult) × (map_classes cs r ≡ some r') × Follows cs r r'
unfolding map_classes
map_classes_lem [] r h =
    (r, refl, record { styles = λ k. refl; unmapped = sym (append_nil r.unmapped) })
map_classes_lem (cls ∷ cs) r h =
    by_outcome (λ next p. map_classes_lem cs next p) (class_outcome cls) refl
  where
    by_outcome :
        ((next : MapResult)
          → any throws cs ≡ false
          → (r' : MapResult) × (map_classes cs next ≡ some r') × Follows cs next r')
        → (o : Outcome) → class_outcome cls ≡ o
        → (r' : MapResult) × (map_classes (cls ∷ cs) r ≡ some r') × Follows (cls ∷ cs) r r'
    by_outcome later (mapped s) e =
        let next : MapResult = record { styles = assign r.styles s; unmapped = r.unmapped } in
        let (r', ok, d) =
          one_more cls cs r next (λ k. rw e (lookup-assign s r.styles k))
            (rw e (sym (append_nil r.unmapped)))
            (later next (later_throws cls cs (mapped s) e refl ∙ h)) in
        (r', rw (map_classes, e) ok, d)
    by_outcome later unknown e =
        let next : MapResult = record { styles = r.styles; unmapped = r.unmapped ++ (cls ∷ []) } in
        let (r', ok, d) =
          one_more cls cs r next (λ k. rw e) (rw e)
            (later next (later_throws cls cs unknown e refl ∙ h)) in
        (r', rw (map_classes, e) ok, d)
    by_outcome later thrown e = cc

pub map_classes-throws :
    (cs : List Text) (r : MapResult) → any throws cs ≡ true → map_classes cs r ≡ none
unfolding map_classes
map_classes-throws [] r h = cc
map_classes-throws (cls ∷ cs) r h =
    by_outcome (λ next p. map_classes-throws cs next p) (class_outcome cls) refl
  where
    by_outcome :
        ((next : MapResult) → any throws cs ≡ true → map_classes cs next ≡ none)
        → (o : Outcome) → class_outcome cls ≡ o
        → map_classes (cls ∷ cs) r ≡ none
    by_outcome later (mapped s) e =
        rw (map_classes, e)
          (later (record { styles = assign r.styles s; unmapped = r.unmapped })
            (later_throws cls cs (mapped s) e refl ∙ h))
    by_outcome later unknown e =
        rw (map_classes, e)
          (later (record { styles = r.styles; unmapped = r.unmapped ++ (cls ∷ []) })
            (later_throws cls cs unknown e refl ∙ h))
    by_outcome later thrown e = rw (map_classes, e)
