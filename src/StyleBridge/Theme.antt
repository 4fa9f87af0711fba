-- ===== src/StyleBridge/Theme.antt =====
-- packages/opentui-dom/src/bridge/style-bridge.ts: CSS variables and the classes of the theme.
use effect_native.Prelude.{
  ℕ, zero, suc, ◌+◌, ◌==◌, Bool, true, false, ◌&&◌, ◌||◌, Option, none, some, List, [], ◌∷◌, ◌++◌,
  Text, codes, text_eq, is_space, trim_start, starts_with, any, ltb, length, drop, if◌then◌else◌,
}
use effect_native.Tailwind.Values.{Styles, word, lookup, assign}
use effect_native.Tailwind.Parse.{is_member, prototype_members}

-- CSS_VAR_DEFAULTS
abbrev pub css_var_defaults : List (Text × Text)
css_var_defaults =
    (codes "--background", codes "#09090B")
    ∷ (codes "--foreground", codes "#FAFAFA")
    ∷ (codes "--card", codes "#09090B")
    ∷ (codes "--card-foreground", codes "#FAFAFA")
    ∷ (codes "--popover", codes "#09090B")
    ∷ (codes "--popover-foreground", codes "#FAFAFA")
    ∷ (codes "--primary", codes "#FAFAFA")
    ∷ (codes "--primary-foreground", codes "#18181B")
    ∷ (codes "--secondary", codes "#27272A")
    ∷ (codes "--secondary-foreground", codes "#FAFAFA")
    ∷ (codes "--muted", codes "#27272A")
    ∷ (codes "--muted-foreground", codes "#A1A1AA")
    ∷ (codes "--accent", codes "#27272A")
    ∷ (codes "--accent-foreground", codes "#FAFAFA")
    ∷ (codes "--destructive", codes "#7F1D1D")
    ∷ (codes "--destructive-foreground", codes "#FAFAFA")
    ∷ (codes "--border", codes "#27272A")
    ∷ (codes "--input", codes "#27272A")
    ∷ (codes "--ring", codes "#D4D4D8")
    ∷ []

-- `cssVarMap`, from the overrides.
abbrev pub with_overrides : List (Text × Text) → List (Text × Text)
with_overrides overrides = overrides ++ css_var_defaults

-- `trim()`
unfoldable pub trim_end : Text → Text
unfolding is_space
trim_end [] = []
trim_end (c ∷ s) =
    let rest = trim_end s in if (length rest == 0) && is_space c then [] else c ∷ rest

unfoldable pub trim : Text → Text
unfolding trim_end trim_start
trim s = trim_end (trim_start s)

-- The longest front without the end of a reference, or without the end of a name, and what follows it.
unfoldable pub until : (ℕ → Bool) → Text → Text × Text
until stop [] = ([], [])
until stop (c ∷ s) =
    let (run, rest) = until stop s in if stop c then ([], c ∷ s) else (c ∷ run, rest)

abbrev pub ends_reference : ℕ → Bool
ends_reference c = c == b')'

abbrev pub ends_name : ℕ → Bool
ends_name c = (c == b',') || (c == b')')

-- A name, its fallback and the length of the match.
abbrev pub Reference : Type 0
Reference = Text × Option Text × ℕ

-- `(?:,\s*([^)]+))?\)` behind a name. The white space before a fallback is left to it, which is trimmed.
unfoldable pub after_name : Text → Text → Option Reference
unfolding until
after_name name [] = none
after_name name (c ∷ s) =
    if c == b')'
    then some (name, none, length name + 5)
    else if ltb 0 (length (until ends_reference s).0) && ltb 0 (length (until ends_reference s).1)
    then some
        (name, some (until ends_reference s).0, length name + length (until ends_reference s).0 + 6)
    else none

-- `/var\(([^,)]+)(?:,\s*([^)]+))?\)/` at the front of a text.
unfoldable pub match_var : Text → Option Reference
unfolding starts_with until after_name
match_var s =
    if starts_with (codes "var(") s && ltb 0 (length (until ends_name (drop 4 s)).0)
    then after_name (until ends_name (drop 4 s)).0 (until ends_name (drop 4 s)).1
    else none

abbrev pub fallback_text : Option Text → Text
unfolding trim
fallback_text none = []
fallback_text (some t) = trim t

-- The empty string counts as no color.
abbrev pub non_empty_color : Option Text → Option Text
non_empty_color none = none
non_empty_color (some []) = none
non_empty_color (some (c ∷ s)) = some (c ∷ s)

abbrev pub paint : Text → List Text → Styles
paint color [] = []
paint color (n ∷ ns) = (n, word color) ∷ paint color ns

-- `member_text` is the text of a member of Object.prototype, which `cssVarMap` has besides its own.
module _ (member_text : Text → Text) (css_var_map : List (Text × Text)) where
  unfoldable pub css_var : Text → Option Text
  unfolding lookup is_member
  css_var name = elim (lookup css_var_map name) [
    | some value ↦ some value
    | none ↦ if is_member prototype_members name then some (member_text name) else none
  ]

  unfoldable pub replacement : Text → Option Text → Text
  unfolding css_var trim
  replacement var_name fallback = elim (css_var (trim var_name)) [
    | some value ↦ value
    | none ↦ fallback_text fallback
  ]

  -- The replacement of all matches, `skip` being what is left of the last match.
  unfoldable pub resolve_from : ℕ → Text → Text
  unfolding match_var replacement
  resolve_from skip [] = []
  resolve_from (suc skip) (c ∷ s) = resolve_from skip s
  resolve_from zero (c ∷ s) = elim (match_var (c ∷ s)) [
    | none ↦ c ∷ resolve_from zero s
    | some (name, fallback, zero) ↦ c ∷ resolve_from zero s
    | some (name, fallback, suc left) ↦ replacement name fallback ++ resolve_from left s
  ]

  unfoldable pub resolve_css_vars : Text → Text
  unfolding resolve_from
  resolve_css_vars value = resolve_from zero value

  -- The value of a variable of the theme that is no empty string, by what follows the prefix of a class.
  unfoldable pub theme_color : List Text → Text → Option Text
  unfolding text_eq css_var
  theme_color bases rest =
      elim (any (λ n. text_eq n rest || text_eq (n ++ codes "-foreground") rest) bases) [
        | true ↦ non_empty_color (css_var (codes "--" ++ rest))
        | false ↦ none
      ]

  abbrev pub bases : List Text
  bases =
      codes "background"
      ∷ codes "foreground"
      ∷ codes "card"
      ∷ codes "popover"
      ∷ codes "primary"
      ∷ codes "secondary"
      ∷ codes "muted"
      ∷ codes "accent"
      ∷ codes "destructive"
      ∷ []

  abbrev pub border_bases : List Text
  border_bases = bases ++ (codes "border" ∷ codes "input" ∷ codes "ring" ∷ [])

  abbrev pub colored : List Text → Option Text → Option Styles
  colored names none = none
  colored names (some color) = some (paint color names)

  -- The three prefixes exclude each other.
  unfoldable pub map_theme_class : Text → Option Styles
  unfolding starts_with theme_color
  map_theme_class class_name =
      if starts_with (codes "bg-") class_name
      then colored (codes "bg" ∷ codes "backgroundColor" ∷ [])
          (theme_color bases (drop 3 class_name))
      else if starts_with (codes "text-") class_name
      then colored (codes "fg" ∷ []) (theme_color bases (drop 5 class_name))
      else if starts_with (codes "border-") class_name
      then colored (codes "borderColor" ∷ []) (theme_color border_bases (drop 7 class_name))
      else none

  unfoldable pub theme_styles : List Text → Styles → Styles
  unfolding map_theme_class assign
  theme_styles [] styles = styles
  theme_styles (cls ∷ unmapped) styles = elim (map_theme_class cls) [
    | some mapped ↦ theme_styles unmapped (assign styles mapped)
    | none ↦ theme_styles unmapped styles
  ]
