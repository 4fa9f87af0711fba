-- ===== src/Patterns/Thing/Laws.antt =====
-- The tags of packages/patterns/src/internal/thing.ts: a sorted array without repetitions.
use effect_native.Prelude.{
  ◌≡◌, refl, ap, ◌∙◌, sym, Bool, Bool-cases, inl, inr, true, false, not, ◌&&◌, ◌||◌, List, [], ◌∷◌,
  ◌++◌, Text, text_eq, text_eq_sound, text_eq_refl, if◌then◌else◌, arith,
}
use effect_native.Patterns.Thing.{
  Thing, text_lt, has_tag, add_all, insert_tag, sort_tags, normalize_tags, make, add_tag,
}

-- In strictly ascending order.
abbrev pub above : Text → List Text → Bool
above t [] = true
above t (u ∷ us) = text_lt t u

abbrev pub is_sorted : List Text → Bool
is_sorted [] = true
is_sorted (t ∷ ts) = above t ts && is_sorted ts

abbrev distinct : List Text → Bool
distinct [] = true
distinct (t ∷ ts) = not (has_tag ts t) && distinct ts

text_eq_symm : (s t : Text) → text_eq s t ≡ text_eq t s
unfolding text_eq
text_eq_symm [] [] = refl
text_eq_symm [] (d ∷ t) = refl
text_eq_symm (c ∷ s) [] = refl
text_eq_symm (c ∷ s) (d ∷ t) = ground (arith, text_eq_symm s t)

text_lt_total : (s t : Text) → text_lt s t ≡ false → text_eq s t ≡ false → text_lt t s ≡ true
unfolding text_lt text_eq
text_lt_total [] [] h k = cc
text_lt_total [] (d ∷ t) h k = cc
text_lt_total (c ∷ s) [] h k = refl
text_lt_total (c ∷ s) (d ∷ t) h k = ground (arith, h, k, text_lt_total s t)

has_tag-append :
    (ts us : List Text) (u : Text) → has_tag (ts ++ us) u ≡ (has_tag ts u || has_tag us u)
unfolding has_tag
has_tag-append [] us u = refl
has_tag-append (t ∷ ts) us u = ground (arith, has_tag-append ts us u)

has_equal_tag :
    (us : List Text) (t u : Text) → has_tag us t ≡ true → text_eq t u ≡ true → has_tag us u ≡ true
has_equal_tag us t u h k = ap (has_tag us) (sym (text_eq_sound t u k)) ∙ h

has_tag-insert_tag :
    (t : Text) (ts : List Text) (u : Text)
    → has_tag (insert_tag t ts) u ≡ (text_eq t u || has_tag ts u)
unfolding has_tag insert_tag
has_tag-insert_tag t [] u = refl
has_tag-insert_tag t (s ∷ ts) u = ground (arith, has_tag-insert_tag t ts u)

has_tag-sort_tags : (ts : List Text) (u : Text) → has_tag (sort_tags ts) u ≡ has_tag ts u
unfolding has_tag sort_tags
has_tag-sort_tags [] u = refl
has_tag-sort_tags (t ∷ ts) u =
    has_tag-insert_tag t (sort_tags ts) u ∙ ap (λ b. text_eq t u || b) (has_tag-sort_tags ts u)

above-insert_tag :
    (s t : Text) (ts : List Text)
    → text_lt s t ≡ true
    → above s ts ≡ true
    → above s (insert_tag t ts) ≡ true
unfolding insert_tag
above-insert_tag s t [] h k = h
above-insert_tag s t (u ∷ ts) h k = ground (arith, h, k)

is_sorted-insert_tag :
    (t : Text) (ts : List Text)
    → has_tag ts t ≡ false
    → is_sorted ts ≡ true
    → is_sorted (insert_tag t ts) ≡ true
unfolding insert_tag has_tag
is_sorted-insert_tag t [] h k = refl
is_sorted-insert_tag t (s ∷ ts) h k = ground (
  arith,
  h,
  k,
  text_lt_total t s,
  text_eq_symm s t,
  above-insert_tag s t ts,
  is_sorted-insert_tag t ts,
)

is_sorted-sort_tags : (ts : List Text) → distinct ts ≡ true → is_sorted (sort_tags ts) ≡ true
unfolding sort_tags
is_sorted-sort_tags [] h = refl
is_sorted-sort_tags (t ∷ ts) h =
    is_sorted-insert_tag t (sort_tags ts) (has_tag-sort_tags ts t ∙ ground (arith, h))
      (is_sorted-sort_tags ts (ground (arith, h)))

distinct-append :
    (ts : List Text) (t : Text)
    → has_tag ts t ≡ false
    → distinct ts ≡ true
    → distinct (ts ++ (t ∷ [])) ≡ true
unfolding has_tag
distinct-append [] t h k = refl
distinct-append (s ∷ ts) t h k =
    ground (arith, h, k, text_eq_symm s t, has_tag-append ts (t ∷ []) s, distinct-append ts t)

distinct-add_all : (us ts : List Text) → distinct us ≡ true → distinct (add_all us ts) ≡ true
unfolding add_all
distinct-add_all us [] h = h
distinct-add_all us (t ∷ ts) h =
    distinct-add_all (if has_tag us t then us else us ++ (t ∷ [])) ts
      (ground (arith, h, distinct-append us t))

has_tag-add_all :
    (us ts : List Text) (u : Text) → has_tag (add_all us ts) u ≡ (has_tag us u || has_tag ts u)
unfolding add_all has_tag
has_tag-add_all us [] u = ground arith
has_tag-add_all us (t ∷ ts) u =
    has_tag-add_all (if has_tag us t then us else us ++ (t ∷ [])) ts u
    ∙ ground (arith, has_tag-append us (t ∷ []) u, has_equal_tag us t u)

normalize_tags-is_sorted : (ts : List Text) → is_sorted (normalize_tags ts) ≡ true
unfolding normalize_tags
normalize_tags-is_sorted ts = is_sorted-sort_tags (add_all [] ts) (distinct-add_all [] ts refl)

has_tag-normalize_tags : (ts : List Text) (u : Text) → has_tag (normalize_tags ts) u ≡ has_tag ts u
unfolding normalize_tags has_tag
has_tag-normalize_tags ts u = has_tag-sort_tags (add_all [] ts) u ∙ has_tag-add_all [] ts u

-- Whatever tags are given, those that are kept are in strictly ascending order, so that none is kept
-- twice, and a tag is kept exactly when it was given.
pub normalize_tags_lem :
    (ts : List Text)
    → (is_sorted (normalize_tags ts) ≡ true)
      × ((u : Text) → has_tag (normalize_tags ts) u ≡ has_tag ts u)
normalize_tags_lem ts = (normalize_tags-is_sorted ts, has_tag-normalize_tags ts)

module _ {ℓ} {A : Type ℓ} where
  add_tag-is_sorted :
      (self : Thing A) (tag : Text)
      → is_sorted self.tags ≡ true
      → is_sorted (add_tag self tag).tags ≡ true
  unfolding add_tag make
  add_tag-is_sorted self tag h = elim (Bool-cases (has_tag self.tags tag)) [
    | inl e ↦ rw e h
    | inr e ↦ rw e (normalize_tags-is_sorted (self.tags ++ (tag ∷ [])))
  ]

  has_tag-add_tag :
      (self : Thing A) (tag u : Text)
      → has_tag (add_tag self tag).tags u ≡ (text_eq tag u || has_tag self.tags u)
  unfolding add_tag make has_tag normalize_tags
  has_tag-add_tag self tag u = elim (Bool-cases (has_tag self.tags tag)) [
    | inl e ↦ rw e (ground (arith, has_equal_tag self.tags tag u e))
    | inr e ↦ rw e (
        has_tag-normalize_tags (self.tags ++ (tag ∷ [])) u
        ∙ has_tag-append self.tags (tag ∷ []) u
        ∙ ground arith)
  ]

  add_known_tag :
      (self : Thing A) (tag : Text) → has_tag self.tags tag ≡ true → add_tag self tag ≡ self
  unfolding add_tag
  add_known_tag self tag h = rw h

  -- To a thing whose tags are in strictly ascending order, `addTag` adds the tag and no other, keeps the
  -- order, and adds it once: to add it again changes nothing.
  pub add_tag_lem :
      (self : Thing A) (tag : Text)
      → is_sorted self.tags ≡ true
      → (is_sorted (add_tag self tag).tags ≡ true)
        × ((u : Text) → has_tag (add_tag self tag).tags u ≡ (text_eq tag u || has_tag self.tags u))
        × (add_tag (add_tag self tag) tag ≡ add_tag self tag)
  add_tag_lem self tag h = (
    add_tag-is_sorted self tag h,
    has_tag-add_tag self tag,
    add_known_tag (add_tag self tag) tag (has_tag-add_tag self tag tag ∙ rw (text_eq_refl tag)),
  )
