-- ===== src/Note/Slug.antt =====
-- `slugify` of packages/schemas/src/Slug.ts, its replacements in turn.
pub mod Laws
use effect_native.Prelude.{
  ℕ, ◌==◌, Bool, true, false, ◌&&◌, ◌||◌, List, [], ◌∷◌, Text, is_space, leb, if◌then◌else◌,
}

-- `replace(/\s+/g, "-")`; `inside` says that a run of white space has begun.
unfoldable pub to_hyphens : Bool → Text → Text
unfolding is_space
to_hyphens inside [] = []
to_hyphens inside (c ∷ s) =
    let within = to_hyphens true s in
    let after = to_hyphens false s in
    if is_space c then (if inside then within else b'-' ∷ within) else c ∷ after

unfoldable pub is_slug_character : ℕ → Bool
is_slug_character c = (leb b'a' c && leb c b'z') || (leb b'0' c && leb c b'9') || (c == b'-')

-- `replace(/[^a-z0-9-]/g, "")`
unfoldable pub remove_others : Text → Text
unfolding is_slug_character
remove_others [] = []
remove_others (c ∷ s) = let rest = remove_others s in if is_slug_character c then c ∷ rest else rest

-- `replace(/-+/g, "-")`
unfoldable pub collapse : Bool → Text → Text
collapse inside [] = []
collapse inside (c ∷ s) =
    let within = collapse true s in
    let after = collapse false s in
    if c == b'-' then (if inside then within else b'-' ∷ within) else c ∷ after

-- `replace(/^-|-$/g, "")`, at the front and at the end.
unfoldable pub drop_first : Text → Text
drop_first [] = []
drop_first (c ∷ s) = if c == b'-' then s else c ∷ s

unfoldable pub drop_last : Text → Text
drop_last [] = []
drop_last (c ∷ []) = if c == b'-' then [] else c ∷ []
drop_last (c ∷ d ∷ s) = c ∷ drop_last (d ∷ s)

unfoldable pub slugify : (Text → Text) → Text → Text
unfolding to_hyphens remove_others collapse drop_first drop_last
slugify to_lower_case title =
    drop_last (drop_first (collapse false (remove_others (to_hyphens false (to_lower_case title)))))
