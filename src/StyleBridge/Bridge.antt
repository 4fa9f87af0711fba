-- ===== src/StyleBridge/Bridge.antt =====
-- `createStyleBridge` of packages/opentui-dom/src/bridge/style-bridge.ts.
use effect_native.Prelude.{Option, none, some, List, [], ◌∷◌, Text, codes}
use effect_native.Tailwind.Values.{Value, Styles, word, lookup, assign, assign_one}
use effect_native.Tailwind.Mapper.{MapResult, tailwind_to_tui}
use effect_native.StyleBridge.Attributes.{get_data_attributes}
use effect_native.StyleBridge.Theme.{resolve_css_vars, theme_styles}

-- An element: `className`, if it is a string, the attribute `class`, and all attributes.
pub record Element : Type 0 where
  pub class_name : Option Text
  pub class_attribute : Option Text
  pub attributes : List (Text × Text)

abbrev pub or_empty : Option Text → Text
or_empty none = []
or_empty (some t) = t

abbrev pub class_text : Option Text → Option Text → Text
class_text (some t) attribute = t
class_text none attribute = or_empty attribute

unfoldable pub get_class_name : Element → Text
get_class_name element = class_text element.class_name element.class_attribute

abbrev pub color_keys : List Text
color_keys = codes "fg" ∷ codes "bg" ∷ codes "backgroundColor" ∷ codes "borderColor" ∷ []

-- A color whose references are resolved, unless nothing is left of it.
abbrev pub if_left : Text → Text → Value
if_left t [] = word t
if_left t (c ∷ s) = word (c ∷ s)

module _ (member_text : Text → Text) (css_var_map : List (Text × Text)) where
  abbrev pub resolved : Value → Value
  resolved (word t) = if_left t (resolve_css_vars member_text css_var_map t)
  resolved v = v

  abbrev pub replaced : Text → Styles → Option Value → Styles
  replaced key styles none = styles
  replaced key styles (some v) = assign_one styles key (resolved v)

  unfoldable pub resolve_key : Text → Styles → Styles
  unfolding lookup assign_one resolve_css_vars
  resolve_key key styles = replaced key styles (lookup styles key)

  unfoldable pub resolve_keys : List Text → Styles → Styles
  unfolding resolve_key
  resolve_keys [] styles = styles
  resolve_keys (key ∷ keys) styles = resolve_keys keys (resolve_key key styles)

  -- `{ ...tailwindStyles, ...themeStyles, ...dataStyles }`
  unfoldable pub combined_styles : Element → MapResult → Styles
  unfolding assign theme_styles get_data_attributes
  combined_styles element r =
      assign (assign r.styles (theme_styles member_text css_var_map r.unmapped []))
        (get_data_attributes element.attributes)

  unfoldable pub get_style_props : Element → Option Styles
  unfolding get_class_name tailwind_to_tui combined_styles resolve_keys
  get_style_props element = elim (tailwind_to_tui (get_class_name element)) [
    | none ↦ none
    | some r ↦ some (resolve_keys color_keys (combined_styles element r))
  ]

  -- The properties are set in turn. A setter may throw, which is caught, so that it is its effect alone
  -- that matters; `W` is the state of the renderable.
  unfoldable pub set_each : {W : Type 0} → (Text → Value → W → W) → Styles → W → W
  set_each set [] w = w
  set_each set ((key, value) ∷ props) w = set_each set props (set key value w)

  unfoldable pub apply_styles : {W : Type 0} → (Text → Value → W → W) → Element → W → Option W
  unfolding get_style_props set_each
  apply_styles set element w = elim (get_style_props element) [
    | none ↦ none
    | some props ↦ some (set_each set props w)
  ]
