-- ===== src/Note/Tests.antt =====
-- A title with its slug, and the theorem at it.
use effect_native.Prelude.{
  ◌+◌, ◌≡◌, refl, Bool, true, ◌&&◌, ◌==◌, [], ◌∷◌, Text, codes, is_space, leb, if◌then◌else◌, arith,
  includes, starts_with,
}
use effect_native.Note.Slug.{
  slugify, to_hyphens, remove_others, is_slug_character, collapse, drop_first, drop_last,
}
use effect_native.Note.Slug.Laws.{is_slug, is_slug_from, slugify_lem}
use effect_native.Note.Validate.{looks_like_filename, looks_like_flag, decode_title, join_words}

abbrev lower : Text → Text
lower [] = []
lower (c ∷ s) = (if leb b'A' c && leb c b'Z' then c + 32 else c) ∷ lower s

lower_from : (b : Bool) (t : Text) → is_slug_from b t ≡ true → lower t ≡ t
unfolding is_slug_character
lower_from b [] h = refl
lower_from b (c ∷ s) h = ground (arith, h, lower_from (c == b'-') s)

lower_lem : (t : Text) → is_slug t ≡ true → lower t ≡ t
lower_lem [] h = refl
lower_lem (c ∷ s) h = lower_from true (c ∷ s) h

slug_runs : slugify lower (codes " This is -- My Title! ") ≡ codes "this-is-my-title"
unfolding slugify to_hyphens is_space remove_others is_slug_character collapse drop_first drop_last
slug_runs = refl

filename_runs : looks_like_filename (codes "file.md") ≡ true
unfolding looks_like_filename includes starts_with
filename_runs = refl

flag_runs : looks_like_flag (codes "key=value") ≡ true
unfolding looks_like_flag includes starts_with
flag_runs = refl

title_runs : (decode_title lower (codes "My" ∷ codes "title" ∷ [])).slug ≡ codes "my-title"
unfolding decode_title slugify join_words to_hyphens is_space remove_others is_slug_character
    collapse drop_first drop_last
title_runs = refl

slugify_lem_example :
    (is_slug (slugify lower (codes "Hello World")) ≡ true)
    × (slugify lower (slugify lower (codes "Hello World")) ≡ slugify lower (codes "Hello World"))
slugify_lem_example = slugify_lem lower lower_lem (codes "Hello World")
