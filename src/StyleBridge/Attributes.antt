-- ===== src/StyleBridge/Attributes.antt =====
-- `getDataAttributes` of packages/opentui-dom/src/bridge/style-bridge.ts.
use effect_native.Prelude.{
  ℕ, ◌-◌, ◌==◌, Bool, true, false, not, ◌&&◌, Option, none, some, List, [], ◌∷◌, Text, codes,
  text_eq, trim_start, starts_with, any, leb, length, drop, if◌then◌else◌,
}
use effect_native.Prelude.Int.{pos, negsuc}
use effect_native.Tailwind.Values.{
  Value, Styles, number, real, not_a_number, word, flag, lookup, assign,
}
use effect_native.Tailwind.Numbers.{digit_run, parse_digits, parse_float}

-- `/-([a-z])/g` with the letter in upper case.
unfoldable pub kebab_to_camel : Text → Text
kebab_to_camel [] = []
kebab_to_camel (c ∷ []) = c ∷ []
kebab_to_camel (c ∷ d ∷ s) =
    let after = kebab_to_camel s in
    let next = kebab_to_camel (d ∷ s) in
    if (c == b'-') && leb b'a' d && leb d b'z' then (d - 32) ∷ after else c ∷ next

-- The labels of the numeric styles, with the names that the normalization makes of them.
abbrev pub numeric_labels : List (Text × Text)
numeric_labels =
    (codes "padding", codes "padding")
    ∷ (codes "paddingTop", codes "paddingTop")
    ∷ (codes "paddingtop", codes "paddingTop")
    ∷ (codes "paddingRight", codes "paddingRight")
    ∷ (codes "paddingright", codes "paddingRight")
    ∷ (codes "paddingBottom", codes "paddingBottom")
    ∷ (codes "paddingbottom", codes "paddingBottom")
    ∷ (codes "paddingLeft", codes "paddingLeft")
    ∷ (codes "paddingleft", codes "paddingLeft")
    ∷ (codes "margin", codes "margin")
    ∷ (codes "marginTop", codes "marginTop")
    ∷ (codes "margintop", codes "marginTop")
    ∷ (codes "marginRight", codes "marginRight")
    ∷ (codes "marginright", codes "marginRight")
    ∷ (codes "marginBottom", codes "marginBottom")
    ∷ (codes "marginbottom", codes "marginBottom")
    ∷ (codes "marginLeft", codes "marginLeft")
    ∷ (codes "marginleft", codes "marginLeft")
    ∷ (codes "gap", codes "gap")
    ∷ (codes "rowGap", codes "rowGap")
    ∷ (codes "rowgap", codes "rowGap")
    ∷ (codes "columnGap", codes "columnGap")
    ∷ (codes "columngap", codes "columnGap")
    ∷ (codes "width", codes "width")
    ∷ (codes "height", codes "height")
    ∷ (codes "minWidth", codes "minWidth")
    ∷ (codes "minwidth", codes "minWidth")
    ∷ (codes "minHeight", codes "minHeight")
    ∷ (codes "minheight", codes "minHeight")
    ∷ (codes "maxWidth", codes "maxWidth")
    ∷ (codes "maxwidth", codes "maxWidth")
    ∷ (codes "maxHeight", codes "maxHeight")
    ∷ (codes "maxheight", codes "maxHeight")
    ∷ (codes "top", codes "top")
    ∷ (codes "right", codes "right")
    ∷ (codes "bottom", codes "bottom")
    ∷ (codes "left", codes "left")
    ∷ (codes "flexGrow", codes "flexGrow")
    ∷ (codes "flexgrow", codes "flexGrow")
    ∷ (codes "flexShrink", codes "flexShrink")
    ∷ (codes "flexshrink", codes "flexShrink")
    ∷ (codes "opacity", codes "opacity")
    ∷ []

-- The styles that take one of some words.
pub record Choice : Type 0 where
  pub labels : List Text
  pub style : Text
  pub values : List Text

abbrev pub choices : List Choice
choices =
    record {
      labels = codes "borderStyle" ∷ codes "borderstyle" ∷ [];
      style = codes "borderStyle";
      values = codes "single" ∷ codes "double" ∷ codes "rounded" ∷ codes "heavy" ∷ [];
    }
    ∷ record {
      labels = codes "flexDirection" ∷ codes "flexdirection" ∷ [];
      style = codes "flexDirection";
      values = codes "row" ∷ codes "column" ∷ codes "row-reverse" ∷ codes "column-reverse" ∷ [];
    }
    ∷ record {
      labels = codes "flexWrap" ∷ codes "flexwrap" ∷ [];
      style = codes "flexWrap";
      values = codes "no-wrap" ∷ codes "wrap" ∷ codes "wrap-reverse" ∷ [];
    }
    ∷ record {
      labels = codes "justifyContent" ∷ codes "justifycontent" ∷ [];
      style = codes "justifyContent";
      values =
          codes "flex-start"
          ∷ codes "center"
          ∷ codes "flex-end"
          ∷ codes "space-between"
          ∷ codes "space-around"
          ∷ codes "space-evenly"
          ∷ [];
    }
    ∷ record {
      labels = codes "alignItems" ∷ codes "alignitems" ∷ [];
      style = codes "alignItems";
      values =
          codes "auto"
          ∷ codes "flex-start"
          ∷ codes "center"
          ∷ codes "flex-end"
          ∷ codes "stretch"
          ∷ codes "baseline"
          ∷ [];
    }
    ∷ record {
      labels = codes "alignSelf" ∷ codes "alignself" ∷ [];
      style = codes "alignSelf";
      values =
          codes "auto"
          ∷ codes "flex-start"
          ∷ codes "center"
          ∷ codes "flex-end"
          ∷ codes "stretch"
          ∷ [];
    }
    ∷ record {
      labels = codes "position" ∷ [];
      style = codes "position";
      values = codes "static" ∷ codes "relative" ∷ codes "absolute" ∷ [];
    }
    ∷ record {
      labels = codes "overflow" ∷ [];
      style = codes "overflow";
      values = codes "visible" ∷ codes "hidden" ∷ codes "scroll" ∷ [];
    }
    ∷ []

-- The labels of the styles that are set by `value === "true"`.
abbrev pub boolean_labels : List Text
boolean_labels =
    codes "border" ∷ codes "bold" ∷ codes "italic" ∷ codes "underline" ∷ codes "dim" ∷ []

unfoldable pub is_one_of : List Text → Text → Bool
is_one_of names name = any (λ n. text_eq n name) names

abbrev pub with_sign : Bool → ℕ → Value
with_sign false n = number (pos n)
with_sign true n = if n == 0 then number (pos 0) else number (negsuc (n - 1))

-- The digits at the front of a number.
abbrev pub signed_digits : Bool → Text → Value
unfolding parse_digits
signed_digits negative [] = not_a_number
signed_digits negative (c ∷ run) = with_sign negative (parse_digits 0 (c ∷ run))

abbrev pub from_sign : Text → Value
unfolding digit_run signed_digits
from_sign [] = not_a_number
from_sign (c ∷ s) =
    if c == b'-'
    then signed_digits true (digit_run s).0
    else if c == b'+'
    then signed_digits false (digit_run s).0
    else signed_digits false (digit_run (c ∷ s)).0

-- `parseInt(value, 10)`
unfoldable pub parse_int : Text → Value
unfolding from_sign trim_start
parse_int value = from_sign (trim_start value)

unfoldable pub ends_with_percent : Text → Bool
ends_with_percent [] = false
ends_with_percent (c ∷ []) = c == b'%'
ends_with_percent (c ∷ d ∷ s) = ends_with_percent (d ∷ s)

-- A numeric style from the value of its attribute.
unfoldable pub numeric_value : Text → Option Value
unfolding parse_float trim_start text_eq ends_with_percent
numeric_value value = elim (parse_float (trim_start value)) [
  | some n ↦ some (real n)
  | none ↦
      if text_eq value (codes "auto")
      then some (word value)
      else if ends_with_percent value
      then some (word value)
      else none
]

abbrev pub one_style : Text → Option Value → Styles
one_style name none = []
one_style name (some v) = (name, v) ∷ []

unfoldable pub from_choices : List Choice → Text → Text → Styles
unfolding is_one_of
from_choices [] prop_name value = []
from_choices (c ∷ cs) prop_name value =
    let others = from_choices cs prop_name value in
    if is_one_of c.labels prop_name
    then one_style c.style (if is_one_of c.values value then some (word value) else none)
    else others

unfoldable pub from_numbers : Text → Text → Styles
unfolding lookup numeric_value from_choices
from_numbers prop_name value = elim (lookup numeric_labels prop_name) [
  | some name ↦ one_style name (numeric_value value)
  | none ↦ from_choices choices prop_name value
]

-- The `switch`: the styles that a property with a value sets. Its labels are all different.
unfoldable pub set_property : Text → Text → Styles
unfolding is_one_of text_eq parse_int from_numbers
set_property prop_name value =
    if is_one_of (codes "bg" ∷ codes "backgroundColor" ∷ codes "backgroundcolor" ∷ []) prop_name
    then (codes "bg", word value) ∷ (codes "backgroundColor", word value) ∷ []
    else if text_eq prop_name (codes "fg")
    then (codes "fg", word value) ∷ []
    else if is_one_of (codes "borderColor" ∷ codes "bordercolor" ∷ []) prop_name
    then (codes "borderColor", word value) ∷ []
    else if is_one_of boolean_labels prop_name
    then (prop_name, flag (text_eq value (codes "true"))) ∷ []
    else if text_eq prop_name (codes "visible")
    then (codes "visible", flag (not (text_eq value (codes "false")))) ∷ []
    else if is_one_of (codes "zIndex" ∷ codes "zindex" ∷ []) prop_name
    then (codes "zIndex", parse_int value) ∷ []
    else from_numbers prop_name value

-- One round of the loop over the attributes.
unfoldable pub attribute_styles : Text → Text → Styles
unfolding starts_with kebab_to_camel set_property
attribute_styles name value =
    if starts_with (codes "data-tui-") name
    then set_property (kebab_to_camel (drop (length (codes "data-tui-")) name)) value
    else []

unfoldable pub data_attributes : List (Text × Text) → Styles → Styles
unfolding attribute_styles assign
data_attributes [] props = props
data_attributes ((name, value) ∷ attrs) props =
    data_attributes attrs (assign props (attribute_styles name value))

unfoldable pub get_data_attributes : List (Text × Text) → Styles
unfolding data_attributes
get_data_attributes attributes = data_attributes attributes []
