-- ===== src/Note/Slug/Laws.antt =====
-- What a slug is.
use effect_native.Prelude.{
  ℕ, ◌==◌, ◌≡◌, refl, ap, ◌∙◌, Bool, true, false, not, ◌&&◌, [], ◌∷◌, Text, is_space, all, arith,
}
use effect_native.Note.Slug.{
  to_hyphens, is_slug_character, remove_others, collapse, drop_first, drop_last, slugify,
}

-- No hyphen follows a hyphen, the one before the text included, if `after` says so.
abbrev pub single : Bool → Text → Bool
single after [] = true
single after (c ∷ s) = not (after && (c == b'-')) && single (c == b'-') s

-- Letters and digits, with single hyphens between them.
abbrev pub is_slug_from : Bool → Text → Bool
is_slug_from after [] = not after
is_slug_from after (c ∷ s) =
    is_slug_character c && (not (after && (c == b'-')) && is_slug_from (c == b'-') s)

abbrev pub is_slug : Text → Bool
is_slug [] = true
is_slug (c ∷ s) = is_slug_from true (c ∷ s)

single-collapse : (b : Bool) (t : Text) → single b (collapse b t) ≡ true
unfolding collapse
single-collapse b [] = refl
single-collapse b (c ∷ s) = ground (arith, single-collapse true s, single-collapse false s)

all-remove_others : (t : Text) → all is_slug_character (remove_others t) ≡ true
unfolding remove_others
all-remove_others [] = refl
all-remove_others (c ∷ s) = ground (arith, all-remove_others s)

hyphen_allowed : is_slug_character b'-' ≡ true
unfolding is_slug_character
hyphen_allowed = refl

all-collapse :
    (b : Bool) (t : Text)
    → all is_slug_character t ≡ true
    → all is_slug_character (collapse b t) ≡ true
unfolding collapse
all-collapse b [] h = refl
all-collapse b (c ∷ s) h =
    ground (arith, h, hyphen_allowed, all-collapse true s, all-collapse false s)

is_slug_from-drop_last :
    (b : Bool) (c : ℕ) (s : Text)
    → single b (c ∷ s) ≡ true
    → all is_slug_character (c ∷ s) ≡ true
    → is_slug_from b (drop_last (c ∷ s)) ≡ true
unfolding drop_last
is_slug_from-drop_last b c [] h a = ground (arith, h, a)
is_slug_from-drop_last b c (d ∷ s) h a =
    ground (arith, h, a, is_slug_from-drop_last (c == b'-') d s)

single-drop_first : (t : Text) → single false t ≡ true → single true (drop_first t) ≡ true
unfolding drop_first
single-drop_first [] h = refl
single-drop_first (c ∷ s) h = ground (arith, h)

all-drop_first :
    (t : Text) → all is_slug_character t ≡ true → all is_slug_character (drop_first t) ≡ true
unfolding drop_first
all-drop_first [] h = refl
all-drop_first (c ∷ s) h = ground (arith, h)

is_slug_lem : (t : Text) → is_slug_from true t ≡ true → is_slug t ≡ true
is_slug_lem [] h = refl
is_slug_lem (c ∷ s) h = h

is_slug-drop_last :
    (t : Text)
    → single true t ≡ true
    → all is_slug_character t ≡ true
    → is_slug (drop_last t) ≡ true
unfolding drop_last
is_slug-drop_last [] h a = refl
is_slug-drop_last (c ∷ s) h a =
    is_slug_lem (drop_last (c ∷ s)) (is_slug_from-drop_last true c s h a)

no_space : (x : ℕ) → is_slug_character x ≡ true → is_space x ≡ false
unfolding is_slug_character is_space
no_space x h = ground arith

to_hyphens_lem : (b c : Bool) (t : Text) → is_slug_from c t ≡ true → to_hyphens b t ≡ t
unfolding to_hyphens
to_hyphens_lem b c [] h = refl
to_hyphens_lem b c (x ∷ s) h = ground (arith, h, no_space x, to_hyphens_lem false (x == b'-') s)

remove_others_lem : (c : Bool) (t : Text) → is_slug_from c t ≡ true → remove_others t ≡ t
unfolding remove_others
remove_others_lem c [] h = refl
remove_others_lem c (x ∷ s) h = ground (arith, h, remove_others_lem (x == b'-') s)

collapse_lem : (b : Bool) (t : Text) → is_slug_from b t ≡ true → collapse b t ≡ t
unfolding collapse
collapse_lem b [] h = refl
collapse_lem b (x ∷ s) h = ground (arith, h, collapse_lem true s, collapse_lem false s)

drop_first_lem : (t : Text) → is_slug t ≡ true → drop_first t ≡ t
unfolding drop_first
drop_first_lem [] h = refl
drop_first_lem (c ∷ s) h = ground (arith, h)

drop_last_lem : (b : Bool) (t : Text) → is_slug_from b t ≡ true → drop_last t ≡ t
unfolding drop_last
drop_last_lem b [] h = refl
drop_last_lem b (c ∷ []) h = ground (arith, h)
drop_last_lem b (c ∷ d ∷ s) h = ground (arith, h, drop_last_lem (c == b'-') (d ∷ s))

slug_parts_lem :
    (t : Text)
    → is_slug t ≡ true
    → drop_last (drop_first (collapse false (remove_others (to_hyphens false t)))) ≡ t
unfolding to_hyphens remove_others collapse drop_first drop_last
slug_parts_lem [] h = refl
slug_parts_lem (c ∷ s) h =
    rw
      (
        to_hyphens_lem false true (c ∷ s) h,
        remove_others_lem true (c ∷ s) h,
        collapse_lem false (c ∷ s) (unguarded h),
        drop_first_lem (c ∷ s) h,
      )
      (drop_last_lem true (c ∷ s) h)
  where
    unguarded : is_slug_from true (c ∷ s) ≡ true → is_slug_from false (c ∷ s) ≡ true
    unguarded h = ground (arith, h)

is_slug-parts :
    (t : Text) → is_slug (drop_last (drop_first (collapse false (remove_others t)))) ≡ true
is_slug-parts t =
    is_slug-drop_last (drop_first (collapse false (remove_others t)))
      (single-drop_first (collapse false (remove_others t))
        (single-collapse false (remove_others t)))
      (all-drop_first (collapse false (remove_others t))
        (all-collapse false (remove_others t) (all-remove_others t)))

module _ (to_lower_case : Text → Text)
    (keeps : (t : Text) → is_slug t ≡ true → to_lower_case t ≡ t) where
  -- A slug is letters from `a` to `z` and digits, with single hyphens between them, whatever the title is;
  -- and the slug of a slug is the slug itself, if `toLowerCase` leaves it as it is.
  pub slugify_lem :
      (title : Text)
      → (is_slug (slugify to_lower_case title) ≡ true)
        × (slugify to_lower_case (slugify to_lower_case title) ≡ slugify to_lower_case title)
  unfolding slugify
  slugify_lem title =
      let h = is_slug-parts (to_hyphens false (to_lower_case title)) in
      let t : Text = slugify to_lower_case title in
      (
        h,
        ap (λ x. drop_last (drop_first (collapse false (remove_others (to_hyphens false x)))))
              (keeps t h)
            ∙ slug_parts_lem t h,
      )
