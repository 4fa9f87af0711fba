-- ===== src/Tailwind/Tests.antt =====
-- Classes with their styles, and the theorems at them.
use effect_native.Prelude.{
  ◌≡◌, ◌↔◌, refl, true, false, none, some, [], ◌∷◌, ◌++◌, Text, codes, any, is_space, starts_with,
  text_eq,
}
use effect_native.Prelude.Int.{pos, negsuc}
use effect_native.Tailwind.Values.{number, word, flag, lookup, assign, assign_one}
use effect_native.Tailwind.Numbers.{
  is_digit, digit_run, parse_digits, signed_exponent, exponent, after_whole, parse_unsigned,
  parse_float, round_quarter,
}
use effect_native.Tailwind.Parse.{
  is_member, is_number, parse_spacing, parse_color, parse_size_value, indexed, parse_shade,
  has_shade, word_part, is_word_character,
}
use effect_native.Tailwind.Patterns.{pattern_mappers, after_prefix, number_after}
use effect_native.Tailwind.Mapper.{
  MapResult, mapped, tailwind_to_tui, map_classes, class_list, pieces, non_empty, class_outcome,
  is_skipped, map_single_class, direct_member, first_match,
}
use effect_native.Tailwind.Loop.{or_else, throws}
use effect_native.Tailwind.Laws.{
  IsResult, tailwind_to_tui_lem, tailwind_to_tui-throws, tailwind_to_tui-append,
}
use effect_native.Tailwind.Colors.{is_color, parse_color_lem}

padded_runs :
    map_single_class (codes "px-4")
    ≡ mapped ((codes "paddingLeft", number (pos 1)) ∷ (codes "paddingRight", number (pos 1)) ∷ [])
unfolding map_single_class lookup is_member first_match pattern_mappers after_prefix starts_with
    parse_spacing indexed text_eq
padded_runs = refl

negative_width_runs : parse_size_value (codes "-12.5e1x") ≡ some (number (negsuc 30))
unfolding parse_size_value text_eq indexed lookup is_member parse_float parse_unsigned starts_with
    digit_run is_digit after_whole exponent signed_exponent parse_digits round_quarter
negative_width_runs = refl

abbrev bold : Text
bold = codes "font-bold  hover:p-1 italic"

abbrev spaced : Text
spaced = codes "font-normal wat"

abbrev result_of_bold : MapResult
result_of_bold = record {
  styles = (codes "bold", flag true) ∷ (codes "italic", flag true) ∷ [];
  unmapped = codes "hover:p-1" ∷ [];
}

abbrev result_of_spaced : MapResult
result_of_spaced = record { styles = (codes "bold", flag false) ∷ []; unmapped = codes "wat" ∷ [] }

bold_runs : tailwind_to_tui bold ≡ some result_of_bold
unfolding tailwind_to_tui map_classes class_list pieces is_space non_empty class_outcome is_skipped
    starts_with map_single_class lookup text_eq assign assign_one
bold_runs = refl

spaced_runs : tailwind_to_tui spaced ≡ some result_of_spaced
unfolding tailwind_to_tui map_classes class_list pieces is_space non_empty class_outcome is_skipped
    starts_with map_single_class lookup text_eq assign assign_one is_member first_match
    pattern_mappers after_prefix number_after is_number
spaced_runs = refl

tailwind_to_tui_lem_example : (r : MapResult) × (tailwind_to_tui bold ≡ some r) × IsResult bold r
unfolding class_list pieces is_space non_empty class_outcome is_skipped starts_with map_single_class
    lookup text_eq
tailwind_to_tui_lem_example = tailwind_to_tui_lem bold refl

tailwind_to_tui-throws_example :
    (tailwind_to_tui (codes "flex valueOf") ≡ none)
    ↔ (any throws (class_list (codes "flex valueOf")) ≡ true)
tailwind_to_tui-throws_example = tailwind_to_tui-throws (codes "flex valueOf")

value_of_runs : tailwind_to_tui (codes "flex valueOf") ≡ none
unfolding tailwind_to_tui map_classes class_list pieces is_space non_empty class_outcome is_skipped
    starts_with map_single_class lookup text_eq is_member direct_member assign assign_one
value_of_runs = refl

tailwind_to_tui-append_example :
    (t : MapResult) × (tailwind_to_tui (bold ++ (32 ∷ spaced)) ≡ some t)
    × ((k : Text)
        → lookup t.styles k
          ≡ or_else (lookup result_of_spaced.styles k) (lookup result_of_bold.styles k))
    × (t.unmapped ≡ codes "hover:p-1" ∷ codes "wat" ∷ [])
tailwind_to_tui-append_example =
    tailwind_to_tui-append bold spaced result_of_bold result_of_spaced bold_runs spaced_runs

parse_color_lem_example : is_color (word (codes "#3B82F6")) ≡ true
unfolding parse_color indexed lookup text_eq is_member parse_shade has_shade word_part
    is_word_character is_digit starts_with is_number
parse_color_lem_example = parse_color_lem (codes "blue-500") (word (codes "#3B82F6")) refl
