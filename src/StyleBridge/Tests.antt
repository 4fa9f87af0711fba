-- ===== src/StyleBridge/Tests.antt =====
-- An element with its styles, and the theorems at it.
use effect_native.Prelude.{
  ◌≡◌, refl, false, Option, none, some, [], ◌∷◌, Text, codes, is_space, starts_with, text_eq,
  trim_start, if◌then◌else◌,
}
use effect_native.Tailwind.Values.{Value, Styles, real, decimal, lookup}
use effect_native.Tailwind.Numbers.{
  is_digit, digit_run, parse_digits, exponent, after_whole, parse_unsigned, parse_float,
}
use effect_native.Tailwind.Parse.{
  is_member, is_number, parse_color, parse_shade, has_shade, word_part, is_word_character, indexed,
}
use effect_native.Tailwind.Patterns.{pattern_mappers, after_prefix, number_after}
use effect_native.Tailwind.Mapper.{
  MapResult, class_list, pieces, non_empty, class_outcome, is_skipped, map_single_class,
  first_match,
}
use effect_native.Tailwind.Loop.{or_else, last_of}
use effect_native.Tailwind.Laws.{IsResult}
use effect_native.StyleBridge.Attributes.{is_one_of, get_data_attributes, numeric_value}
use effect_native.StyleBridge.Theme.{
  css_var_defaults, resolve_css_vars, resolve_from, match_var, until, after_name, replacement,
  css_var, trim, trim_end, theme_styles,
}
use effect_native.StyleBridge.Bridge.{Element, get_class_name, color_keys, get_style_props}
use effect_native.StyleBridge.Laws.{mapped_value, value_of, get_style_props_lem}

abbrev no_text : Text → Text
no_text t = []

reference_runs :
    resolve_css_vars no_text css_var_defaults (codes "a var(--card ,x) var(--y, z )")
    ≡ codes "a #09090B z"
unfolding resolve_css_vars resolve_from match_var starts_with until after_name replacement css_var
    trim trim_end trim_start is_space lookup is_member text_eq
reference_runs = refl

percent_runs : numeric_value (codes "50%") ≡ some (real (decimal false 50 0 0))
unfolding numeric_value parse_float trim_start is_space parse_unsigned starts_with digit_run
    is_digit after_whole exponent parse_digits
percent_runs = refl

abbrev button : Element
button = record {
  class_name = some (codes "p-4 bg-primary");
  class_attribute = none;
  attributes =
      (codes "data-tui-padding", codes "50%") ∷ (codes "data-tui-fg", codes "var(--ring)") ∷ [];
}

get_style_props_lem_example :
    (r : MapResult) × (props : Styles) × IsResult (get_class_name button) r
    × (get_style_props no_text css_var_defaults button ≡ some props)
    × ((k : Text)
        → let wins : Option Value = or_else (last_of (get_data_attributes button.attributes) k) (
            or_else
              (last_of (theme_styles no_text css_var_defaults r.unmapped []) k)
              (lookup r.styles k)) in
          lookup props k ≡ (
            if is_one_of color_keys k
            then mapped_value (value_of no_text css_var_defaults) wins
            else wins))
unfolding class_list pieces is_space non_empty class_outcome is_skipped starts_with map_single_class
    lookup text_eq is_member first_match pattern_mappers after_prefix number_after is_number
    get_class_name parse_color indexed parse_shade has_shade word_part is_word_character is_digit
get_style_props_lem_example = get_style_props_lem no_text css_var_defaults button refl
