-- ===== src/Tailwind/Colors.antt =====
-- The colors of packages/opentui-dom/src/bridge/tailwind-mapper.ts.
use effect_native.Prelude.{
  ℕ, ◌≡◌, refl, sym, ◌∙◌, Bool, Bool-cases, inl, inr, true, false, ◌&&◌, ◌||◌, ◌==◌, leb, Option,
  none, some, List, [], ◌∷◌, Text, codes, text_eq, all, length, drop, starts_with, arith,
}
use mathlib.Core.Option.{some-injective}
use mathlib.Core.Path.{subst}
use effect_native.Tailwind.Values.{Value, word, inherited, lookup}
use effect_native.Tailwind.Tables.{simple_colors, terminal_colors}
use effect_native.Tailwind.Palette.{Palette, color_palette}
use effect_native.Tailwind.Parse.{
  prototype_members, is_member, indexed, shade_in, word_part, has_shade, parse_shade, parse_color,
}

abbrev pub is_hex_digit : ℕ → Bool
is_hex_digit c = (leb b'0' c && leb c b'9') || (leb b'A' c && leb c b'F')

-- A number sign and six hexadecimal digits.
unfoldable pub is_hex : Text → Bool
unfolding starts_with
is_hex c = starts_with (codes "#") c && (length c == 7) && all is_hex_digit (drop 1 c)

-- The colors without a number.
abbrev pub color_words : List Text
color_words = codes "transparent" ∷ codes "inherit" ∷ codes "currentColor" ∷ terminal_colors

unfoldable pub is_color_text : Text → Bool
unfolding is_hex is_member
is_color_text c = is_hex c || is_member color_words c

-- A color, or a member of Object.prototype.
abbrev pub is_color : Value → Bool
is_color (word c) = is_color_text c
is_color (inherited name) = is_member prototype_members name
is_color _ = false

lookup-all :
    {A : Type 0} (p : A → Bool) (t : List (Text × A)) (k : Text) (a : A)
    → all (λ e. p e.1) t ≡ true
    → lookup t k ≡ some a
    → p a ≡ true
unfolding lookup
lookup-all p [] k a h e = cc
lookup-all p ((l, b) ∷ t) k a h e = elim (Bool-cases (text_eq l k)) [
  | inl q ↦ subst (λ x. p x ≡ true) (some-injective b a (found q)) (ground (arith, h))
  | inr q ↦ lookup-all p t k a (ground (arith, h)) (ground (arith, e, q))
]
  where
    found : text_eq l k ≡ true → some b ≡ some a
    found q = ground (arith, e, q)

palette_colors : all (λ e. all (λ s. is_color_text s.1) e.1) color_palette ≡ true
unfolding is_color_text is_hex is_member starts_with text_eq
palette_colors = refl

simple_color_texts : all (λ e. is_color_text e.1) simple_colors ≡ true
unfolding is_color_text is_hex is_member starts_with text_eq
simple_color_texts = refl

indexed_color : (c : Text) (v : Value) → indexed word simple_colors c ≡ some v → is_color v ≡ true
unfolding indexed
indexed_color c v e = by_entry (lookup simple_colors c) refl
  where
    member :
        lookup simple_colors c ≡ none → is_member prototype_members c ≡ true → is_color v ≡ true
    member q m = subst (λ x. is_color x ≡ true) (some-injective (inherited c) v (sym entry ∙ e)) m
      where
        entry : indexed word simple_colors c ≡ some (inherited c)
        entry = rw (indexed, q, m)

    no_member :
        lookup simple_colors c ≡ none → is_member prototype_members c ≡ false → is_color v ≡ true
    no_member q m = cc (e, entry)
      where
        entry : indexed word simple_colors c ≡ none
        entry = rw (indexed, q, m)

    by_entry : (o : Option Text) → lookup simple_colors c ≡ o → is_color v ≡ true
    by_entry (some a) q =
        subst (λ x. is_color x ≡ true) (some-injective (word a) v (sym entry ∙ e))
          (lookup-all is_color_text simple_colors c a simple_color_texts q)
      where
        entry : indexed word simple_colors c ≡ some (word a)
        entry = rw (indexed, q)
    by_entry none q = elim (Bool-cases (is_member prototype_members c)) [
      | inl m ↦ member q m
      | inr m ↦ no_member q m
    ]

shade_in_color :
    (name shade t : Text) (o : Option Palette)
    → lookup color_palette name ≡ o
    → shade_in o shade ≡ some t
    → is_color_text t ≡ true
shade_in_color name shade t none q e = cc
shade_in_color name shade t (some palette) q e =
    lookup-all is_color_text palette shade t
      (lookup-all (λ p. all (λ s. is_color_text s.1) p) color_palette name palette palette_colors q)
      e

shade_color : (c t : Text) → parse_shade c ≡ some t → is_color_text t ≡ true
unfolding parse_shade
shade_color c t e = elim (Bool-cases (has_shade (word_part c))) [
  | inl h ↦
      shade_in_color (word_part c).0 (drop 1 (word_part c).1) t
        (lookup color_palette (word_part c).0) refl (sym (found h) ∙ e)
  | inr h ↦ cc (missing h, e)
]
  where
    found :
        has_shade (word_part c) ≡ true
        → parse_shade c ≡ shade_in (lookup color_palette (word_part c).0) (drop 1 (word_part c).1)
    found h = rw (parse_shade, h)

    missing : has_shade (word_part c) ≡ false → parse_shade c ≡ none
    missing h = rw (parse_shade, h)

is_color_text-terminal : (c : Text) → is_member terminal_colors c ≡ true → is_color_text c ≡ true
unfolding is_color_text is_member
is_color_text-terminal c h = ground (arith, h)

-- What `parseColor` finds is a number sign with six hexadecimal digits, a name of a color, or a member
-- that an object has from Object.prototype.
pub parse_color_lem : (c : Text) (v : Value) → parse_color c ≡ some v → is_color v ≡ true
unfolding parse_color
parse_color_lem c v e = by_simple (indexed word simple_colors c) refl
  where
    by_terminal : indexed word simple_colors c ≡ none → parse_shade c ≡ none → is_color v ≡ true
    by_terminal q h = elim (Bool-cases (is_member terminal_colors c)) [
      | inl m ↦
          subst (λ x. is_color x ≡ true) (some-injective (word c) v (sym (entry m) ∙ e))
            (is_color_text-terminal c m)
      | inr m ↦ cc (e, no_entry m)
    ]
      where
        entry : is_member terminal_colors c ≡ true → parse_color c ≡ some (word c)
        entry m = rw (parse_color, q, h, m)

        no_entry : is_member terminal_colors c ≡ false → parse_color c ≡ none
        no_entry m = rw (parse_color, q, h, m)

    by_shade :
        (o : Option Text)
        → indexed word simple_colors c ≡ none
        → parse_shade c ≡ o
        → is_color v ≡ true
    by_shade (some t) q h =
        subst (λ x. is_color x ≡ true) (some-injective (word t) v (sym entry ∙ e))
          (shade_color c t h)
      where
        entry : parse_color c ≡ some (word t)
        entry = rw (parse_color, q, h)
    by_shade none q h = by_terminal q h

    by_simple : (o : Option Value) → indexed word simple_colors c ≡ o → is_color v ≡ true
    by_simple (some a) q = indexed_color c v (q ∙ (sym entry ∙ e))
      where
        entry : parse_color c ≡ some a
        entry = rw (parse_color, q)
    by_simple none q = by_shade (parse_shade c) q refl
