-- ===== src/Tailwind/Parse.antt =====
-- The values of classes in packages/opentui-dom/src/bridge/tailwind-mapper.ts: parseSpacing, parseColor,
-- parseSizeValue.
use effect_native.Prelude.{
  ℕ, Bool, ◌&&◌, ◌||◌, Option, none, some, List, [], ◌∷◌, Text, codes, text_eq, starts_with, any,
  all, length, drop, ltb, leb, ◌==◌, if◌then◌else◌,
}
use effect_native.Prelude.Int.{pos}
use effect_native.Tailwind.Values.{Value, number, word, inherited, lookup}
use effect_native.Tailwind.Tables.{
  spacing_scale, simple_colors, fraction_to_percent, terminal_colors,
}
use effect_native.Tailwind.Palette.{color_palette, Palette}
use effect_native.Tailwind.Numbers.{is_digit, parse_float, round_quarter}

-- The members that an object has from Object.prototype.
abbrev pub prototype_members : List Text
prototype_members =
    codes "constructor"
    ∷ codes "toString"
    ∷ codes "toLocaleString"
    ∷ codes "valueOf"
    ∷ codes "hasOwnProperty"
    ∷ codes "isPrototypeOf"
    ∷ codes "propertyIsEnumerable"
    ∷ codes "__proto__"
    ∷ codes "__defineGetter__"
    ∷ codes "__defineSetter__"
    ∷ codes "__lookupGetter__"
    ∷ codes "__lookupSetter__"
    ∷ []

unfoldable pub is_member : List Text → Text → Bool
is_member names name = any (λ n. text_eq n name) names

-- `table[key]`, where no value of a table is falsy; `undefined` is `none`.
unfoldable pub indexed : {A : Type 0} → (A → Value) → List (Text × A) → Text → Option Value
unfolding lookup is_member
indexed value table key = elim (lookup table key) [
  | some a ↦ some (value a)
  | none ↦ if is_member prototype_members key then some (inherited key) else none
]

unfoldable pub parse_spacing : Text → Option Value
unfolding indexed
parse_spacing value = indexed (λ n. number (pos n)) spacing_scale value

unfoldable pub is_word_character : ℕ → Bool
unfolding is_digit
is_word_character c =
    (leb b'A' c && leb c b'Z') || (leb b'a' c && leb c b'z') || is_digit c || (c == b'_')

-- The longest front of word characters, and what follows it.
unfoldable pub word_part : Text → Text × Text
unfolding is_word_character
word_part [] = ([], [])
word_part (c ∷ s) =
    let (run, rest) = word_part s in if is_word_character c then (c ∷ run, rest) else ([], c ∷ s)

-- `\d+` and nothing else.
unfoldable pub is_number : Text → Bool
unfolding is_digit
is_number s = ltb 0 (length s) && all is_digit s

abbrev pub shade_in : Option Palette → Text → Option Text
shade_in none shade = none
shade_in (some palette) shade = lookup palette shade

-- `^(\w+)-(\d+)$`, from the word at the front and what follows it.
unfoldable pub has_shade : Text × Text → Bool
unfolding is_number starts_with
has_shade (name, rest) =
    ltb 0 (length name) && starts_with (codes "-") rest && is_number (drop 1 rest)

-- A color with its shade: the members of Object.prototype are no palettes, and have no shades.
unfoldable pub parse_shade : Text → Option Text
unfolding lookup word_part has_shade
parse_shade color_class =
    if has_shade (word_part color_class)
    then shade_in (lookup color_palette (word_part color_class).0)
        (drop 1 (word_part color_class).1)
    else none

unfoldable pub parse_color : Text → Option Value
unfolding indexed parse_shade is_member
parse_color color_class = elim (indexed word simple_colors color_class) [
  | some color ↦ some color
  | none ↦ elim (parse_shade color_class) [
    | some color ↦ some (word color)
    | none ↦ if is_member terminal_colors color_class then some (word color_class) else none
  ]
]

unfoldable pub parse_size_value : Text → Option Value
unfolding text_eq indexed parse_float round_quarter
parse_size_value value =
    if text_eq value (codes "auto")
    then some (word value)
    else elim (indexed word fraction_to_percent value) [
      | some percent ↦ some percent
      | none ↦ elim (parse_float value) [ some num ↦ some (round_quarter num) | none ↦ none ]
    ]

-- `parseSpacing(m[1]) ?? (m[1] === "auto" ? "auto" : undefined)`
unfoldable pub parse_position : Text → Option Value
unfolding parse_spacing text_eq
parse_position value = elim (parse_spacing value) [
  | some v ↦ some v
  | none ↦ if text_eq value (codes "auto") then some (word value) else none
]
