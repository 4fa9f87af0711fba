-- ===== src/StyleBridge/References.antt =====
-- Texts without references to CSS variables.
use effect_native.Prelude.{
  zero, ◌≡◌, refl, ap, false, none, List, [], ◌∷◌, Text, codes, includes, starts_with, arith,
}
use effect_native.StyleBridge.Theme.{match_var, resolve_from, resolve_css_vars}

match_var-none : (s : Text) → starts_with (codes "var(") s ≡ false → match_var s ≡ none
unfolding match_var
match_var-none s h = rw (match_var, h)

module _ (member_text : Text → Text) (css_var_map : List (Text × Text)) where
  resolve_from_lem :
      (s : Text)
      → includes s (codes "var(") ≡ false
      → resolve_from member_text css_var_map zero s ≡ s
  unfolding resolve_from includes
  resolve_from_lem [] h = refl
  resolve_from_lem (c ∷ s) h =
      rw (resolve_from, match_var-none (c ∷ s) (ground (arith, h)))
        (ap (λ t. c ∷ t) (resolve_from_lem s (ground (arith, h))))

  -- A text that does not hold `var(` is resolved to itself.
  pub resolve_css_vars_lem :
      (value : Text)
      → includes value (codes "var(") ≡ false
      → resolve_css_vars member_text css_var_map value ≡ value
  unfolding resolve_css_vars
  resolve_css_vars_lem value h = resolve_from_lem value h
