-- ===== src/StyleBridge/Laws.antt =====
-- Which of the styles of an element wins.
use effect_native.Prelude.{
  ◌≡◌, refl, ap, sym, ◌∙◌, Bool-cases, inl, inr, false, Option, none, some, List, [], ◌∷◌, Text,
  text_eq, text_eq_sound, any, if◌then◌else◌,
}
use effect_native.Tailwind.Values.{Value, Styles, lookup, assign}
use effect_native.Tailwind.Mapper.{MapResult, class_list}
use effect_native.Tailwind.Loop.{or_else, last_of, throws, lookup-assign, lookup-assign_one}
use effect_native.Tailwind.Laws.{IsResult, tailwind_to_tui_lem}
use effect_native.StyleBridge.Attributes.{is_one_of, get_data_attributes}
use effect_native.StyleBridge.Theme.{theme_styles}
use effect_native.StyleBridge.Bridge.{
  Element, get_class_name, color_keys, resolved, replaced, resolve_key, resolve_keys,
  combined_styles, get_style_props,
}

abbrev pub mapped_value : (Value → Value) → Option Value → Option Value
mapped_value f none = none
mapped_value f (some v) = some (f v)

abbrev pub AreDistinct : List Text → Type 0
AreDistinct [] = Unit
AreDistinct (k ∷ ks) = (is_one_of ks k ≡ false) × AreDistinct ks

color_keys-AreDistinct : AreDistinct color_keys
unfolding is_one_of text_eq
color_keys-AreDistinct = (refl, (refl, (refl, (refl, tt))))

module _ (member_text : Text → Text) (css_var_map : List (Text × Text)) where
  abbrev pub value_of : Value → Value
  value_of v = resolved member_text css_var_map v

  lookup-replaced :
      (key : Text) (s : Styles) (k : Text) (o : Option Value)
      → lookup s key ≡ o
      → lookup (replaced member_text css_var_map key s o) k
        ≡ (if text_eq key k then mapped_value value_of (lookup s k) else lookup s k)
  lookup-replaced key s k none e = elim (Bool-cases (text_eq key k)) [
    | inl q ↦ rw (q, ap (lookup s) (sym (text_eq_sound key k q)), e)
    | inr q ↦ rw q
  ]
  lookup-replaced key s k (some v) e = elim (Bool-cases (text_eq key k)) [
    | inl q ↦
        lookup-assign_one s key (value_of v) k
        ∙ rw (q, ap (lookup s) (sym (text_eq_sound key k q)), e)
    | inr q ↦ lookup-assign_one s key (value_of v) k ∙ rw q
  ]

  lookup-resolve_key :
      (key : Text) (s : Styles) (k : Text)
      → lookup (resolve_key member_text css_var_map key s) k
        ≡ (if text_eq key k then mapped_value value_of (lookup s k) else lookup s k)
  unfolding resolve_key
  lookup-resolve_key key s k = lookup-replaced key s k (lookup s key) refl

  lookup-resolve_keys :
      (keys : List Text) (s : Styles) (k : Text)
      → AreDistinct keys
      → lookup (resolve_keys member_text css_var_map keys s) k
        ≡ (if is_one_of keys k then mapped_value value_of (lookup s k) else lookup s k)
  unfolding resolve_keys is_one_of
  lookup-resolve_keys [] s k d = refl
  lookup-resolve_keys (key ∷ keys) s k (fresh, d) =
      lookup-resolve_keys keys (resolve_key member_text css_var_map key s) k d
      ∙ rw (lookup-resolve_key key s k) (elim (Bool-cases (text_eq key k)) [
        | inl q ↦ rw (q, ap (is_one_of keys) (sym (text_eq_sound key k q)), fresh)
        | inr q ↦ rw q
      ])

  lookup-combined_styles :
      (element : Element) (r : MapResult) (k : Text)
      → lookup (combined_styles member_text css_var_map element r) k
        ≡ or_else (last_of (get_data_attributes element.attributes) k) (
            or_else
              (last_of (theme_styles member_text css_var_map r.unmapped []) k)
              (lookup r.styles k))
  unfolding combined_styles
  lookup-combined_styles element r k =
      lookup-assign (get_data_attributes element.attributes)
        (assign r.styles (theme_styles member_text css_var_map r.unmapped [])) k
      ∙ ap (or_else (last_of (get_data_attributes element.attributes) k))
          (lookup-assign (theme_styles member_text css_var_map r.unmapped []) r.styles k)

  -- Unless a class throws, an element has its styles, of which an attribute wins over a class of the
  -- theme, and this over the other classes, whose last one wins; and in each of the four colors the
  -- references to CSS variables are resolved.
  pub get_style_props_lem :
      (element : Element)
      → any throws (class_list (get_class_name element)) ≡ false
      → (r : MapResult) × (props : Styles) × IsResult (get_class_name element) r
        × (get_style_props member_text css_var_map element ≡ some props)
        × ((k : Text)
            → let wins : Option Value =
                or_else (last_of (get_data_attributes element.attributes) k) (
                  or_else
                    (last_of (theme_styles member_text css_var_map r.unmapped []) k)
                    (lookup r.styles k)) in
              lookup props k
              ≡ (if is_one_of color_keys k then mapped_value value_of wins else wins))
  unfolding get_style_props
  get_style_props_lem element h =
      let (r, ok, d) = tailwind_to_tui_lem (get_class_name element) h in
      (
        r,
        resolve_keys member_text css_var_map color_keys
            (combined_styles member_text css_var_map element r),
        d,
        rw (get_style_props, ok),
        λ k.
            lookup-resolve_keys color_keys (combined_styles member_text css_var_map element r) k
              color_keys-AreDistinct
            ∙ ap (λ o. if is_one_of color_keys k then mapped_value value_of o else o)
                (lookup-combined_styles element r k),
      )
