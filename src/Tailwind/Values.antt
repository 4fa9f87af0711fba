-- ===== src/Tailwind/Values.antt =====
-- The styles of packages/opentui-dom/src/bridge/tailwind-mapper.ts.
use effect_native.Prelude.{ℕ, Bool, Option, none, some, List, [], ◌∷◌, Text, text_eq, if◌then◌else◌}
use effect_native.Prelude.Int.{ℤ}

-- A decimal is `mantissa * 10 ^ up / 10 ^ down`, with its sign.
pub data Number : Type 0 where
  decimal : Bool → ℕ → ℕ → ℕ → Number
  unbounded : Bool → Number

-- What a style can be. `hundredths n` is `n / 100`, and `inherited` a member of Object.prototype, which
-- an object that is indexed by a name has besides its own.
pub data Value : Type 0 where
  number : ℤ → Value
  hundredths : ℕ → Value
  real : Number → Value
  not_a_number : Value
  infinity : Bool → Value
  word : Text → Value
  flag : Bool → Value
  sides : List Text → Value
  inherited : Text → Value

-- TuiStyleProps, as the names that are set with their values.
abbrev pub Styles : Type 0
Styles = List (Text × Value)

unfoldable pub lookup {ℓ} : {A : Type ℓ} → List (Text × A) → Text → Option A
lookup [] k = none
lookup ((l, a) ∷ t) k = if text_eq l k then some a else lookup t k

unfoldable pub assign_one : Styles → Text → Value → Styles
assign_one [] k v = (k, v) ∷ []
assign_one ((l, a) ∷ s) k v = if text_eq l k then (l, v) ∷ s else (l, a) ∷ assign_one s k v

-- Object.assign
unfoldable pub assign : Styles → Styles → Styles
unfolding assign_one
assign s [] = s
assign s ((k, v) ∷ t) = assign (assign_one s k v) t
