-- ===== src/Tailwind/Patterns.antt =====
-- `patternMappers` of packages/opentui-dom/src/bridge/tailwind-mapper.ts.
use effect_native.Prelude.{
  ℕ, ◌&&◌, Option, none, some, List, [], ◌∷◌, map, Text, codes, text_eq, starts_with, length, drop,
  ltb, if◌then◌else◌,
}
use effect_native.Prelude.Int.{pos}
use effect_native.Tailwind.Values.{Value, Styles, number, hundredths, word}
use effect_native.Tailwind.Numbers.{parse_digits}
use effect_native.Tailwind.Parse.{
  parse_spacing, is_number, parse_color, parse_size_value, parse_position,
}

-- An element of patternMappers: its group, if it matches, and what the mapper makes of the group.
pub record Pattern : Type 0 where
  pub group : Text → Option Text
  pub mapper : Text → Option Styles

-- `^prefix(.+)$`, for a class, which holds no line terminator.
unfoldable pub after_prefix : Text → Text → Option Text
unfolding starts_with
after_prefix prefix s =
    if starts_with prefix s && ltb (length prefix) (length s)
    then some (drop (length prefix) s)
    else none

-- `^prefix(\d+)$`
unfoldable pub number_after : Text → Text → Option Text
unfolding starts_with is_number
number_after prefix s =
    if starts_with prefix s && is_number (drop (length prefix) s)
    then some (drop (length prefix) s)
    else none

abbrev pub exactly : Text → Text → Option Text
unfolding text_eq
exactly name s = if text_eq name s then some s else none

-- All of the names are set to the value.
abbrev pub set_all : List Text → Option Value → Option Styles
set_all names none = none
set_all names (some v) = some (map (λ n. (n, v)) names)

abbrev pub valued : Text → (Text → Option Value) → List Text → Pattern
unfolding after_prefix
valued prefix parse names = record {
  group = after_prefix prefix;
  mapper = λ m. set_all names (parse m);
}

abbrev pub automatic : Text → List Text → Pattern
unfolding exactly
automatic name names = record {
  group = exactly name;
  mapper = λ m. set_all names (some (word (codes "auto")));
}

abbrev pub numeric : Text → (ℕ → Value) → List Text → Pattern
unfolding number_after parse_digits
numeric prefix value names = record {
  group = number_after prefix;
  mapper = λ m. set_all names (some (value (parse_digits 0 m)));
}

unfoldable pub pattern_mappers : List Pattern
unfolding parse_spacing parse_size_value parse_color parse_position valued automatic numeric
pattern_mappers =
    valued (codes "p-") parse_spacing (codes "padding" ∷ [])
    ∷ valued (codes "px-") parse_spacing (codes "paddingLeft" ∷ codes "paddingRight" ∷ [])
    ∷ valued (codes "py-") parse_spacing (codes "paddingTop" ∷ codes "paddingBottom" ∷ [])
    ∷ valued (codes "pt-") parse_spacing (codes "paddingTop" ∷ [])
    ∷ valued (codes "pr-") parse_spacing (codes "paddingRight" ∷ [])
    ∷ valued (codes "pb-") parse_spacing (codes "paddingBottom" ∷ [])
    ∷ valued (codes "pl-") parse_spacing (codes "paddingLeft" ∷ [])
    ∷ automatic (codes "m-auto") (codes "margin" ∷ [])
    ∷ automatic (codes "mx-auto") (codes "marginLeft" ∷ codes "marginRight" ∷ [])
    ∷ automatic (codes "my-auto") (codes "marginTop" ∷ codes "marginBottom" ∷ [])
    ∷ valued (codes "m-") parse_spacing (codes "margin" ∷ [])
    ∷ valued (codes "mx-") parse_spacing (codes "marginLeft" ∷ codes "marginRight" ∷ [])
    ∷ valued (codes "my-") parse_spacing (codes "marginTop" ∷ codes "marginBottom" ∷ [])
    ∷ valued (codes "mt-") parse_spacing (codes "marginTop" ∷ [])
    ∷ valued (codes "mr-") parse_spacing (codes "marginRight" ∷ [])
    ∷ valued (codes "mb-") parse_spacing (codes "marginBottom" ∷ [])
    ∷ valued (codes "ml-") parse_spacing (codes "marginLeft" ∷ [])
    ∷ valued (codes "gap-x-") parse_spacing (codes "columnGap" ∷ [])
    ∷ valued (codes "gap-y-") parse_spacing (codes "rowGap" ∷ [])
    ∷ valued (codes "gap-") parse_spacing (codes "gap" ∷ [])
    ∷ valued (codes "w-") parse_size_value (codes "width" ∷ [])
    ∷ valued (codes "min-w-") parse_size_value (codes "minWidth" ∷ [])
    ∷ valued (codes "max-w-") parse_size_value (codes "maxWidth" ∷ [])
    ∷ valued (codes "h-") parse_size_value (codes "height" ∷ [])
    ∷ valued (codes "min-h-") parse_size_value (codes "minHeight" ∷ [])
    ∷ valued (codes "max-h-") parse_size_value (codes "maxHeight" ∷ [])
    ∷ valued (codes "bg-") parse_color (codes "backgroundColor" ∷ codes "bg" ∷ [])
    ∷ valued (codes "text-") parse_color (codes "fg" ∷ [])
    ∷ valued (codes "border-") parse_color (codes "borderColor" ∷ [])
    ∷ numeric (codes "opacity-") hundredths (codes "opacity" ∷ [])
    ∷ numeric (codes "z-") (λ n. number (pos n)) (codes "zIndex" ∷ [])
    ∷ valued (codes "top-") parse_position (codes "top" ∷ [])
    ∷ valued (codes "right-") parse_position (codes "right" ∷ [])
    ∷ valued (codes "bottom-") parse_position (codes "bottom" ∷ [])
    ∷ valued (codes "left-") parse_position (codes "left" ∷ [])
    ∷ []
