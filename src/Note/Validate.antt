-- ===== src/Note/Validate.antt =====
-- packages/note/src/Validate.ts: the words of a title.
use effect_native.Prelude.{
  Bool, not, ◌&&◌, ◌||◌, List, [], ◌∷◌, ◌++◌, Text, codes, includes, starts_with,
}
use effect_native.Note.Slug.{slugify}

unfoldable pub looks_like_filename : Text → Bool
unfolding includes
looks_like_filename arg = includes arg (codes ".") && not (includes arg (codes " "))

unfoldable pub looks_like_flag : Text → Bool
unfolding includes starts_with
looks_like_flag arg = starts_with (codes "-") arg || includes arg (codes "=")

-- `Array.join(words, " ")`
unfoldable pub join_words : List Text → Text
join_words [] = []
join_words (w ∷ []) = w
join_words (w ∷ v ∷ ws) = w ++ (codes " " ++ join_words (v ∷ ws))

pub record TitleInput : Type 0 where
  pub words : List Text
  pub title : Text
  pub slug : Text

-- The transformation of `TitleInput`, and back.
unfoldable pub decode_title : (Text → Text) → List Text → TitleInput
unfolding join_words slugify
decode_title to_lower_case words = record {
  words = words;
  title = join_words words;
  slug = slugify to_lower_case (join_words words);
}

abbrev pub encode_title : TitleInput → List Text
encode_title input = input.words
