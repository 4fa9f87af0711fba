-- ===== src/Tailwind/Mapper.antt =====
-- packages/opentui-dom/src/bridge/tailwind-mapper.ts: mapSingleClass and tailwindToTui.
use effect_native.Prelude.{
  Bool, true, false, Option, none, some, List, [], ◌∷◌, ◌++◌, Text, codes, text_eq, is_space,
  starts_with, any, if◌then◌else◌,
}
use effect_native.Tailwind.Values.{Styles, word, lookup, assign}
use effect_native.Tailwind.Classes.{class_mappers}
use effect_native.Tailwind.Parse.{prototype_members, is_member}
use effect_native.Tailwind.Patterns.{Pattern, pattern_mappers}

-- What a class comes to: styles, or none that are known, or an exception.
pub data Outcome : Type 0 where
  mapped : Styles → Outcome
  unknown : Outcome
  thrown : Outcome

abbrev pub outcome_of : Option Styles → Outcome
outcome_of none = unknown
outcome_of (some styles) = mapped styles

-- The first pattern that matches decides.
unfoldable pub first_match : List Pattern → Text → Outcome
first_match [] class_name = unknown
first_match (p ∷ ps) class_name = elim (p.group class_name) [
  | some m ↦ outcome_of (p.mapper m)
  | none ↦ first_match ps class_name
]

-- The styles that Object.assign takes from a string: its characters by their places.
unfoldable pub characters : List Text → Text → Styles
characters (place ∷ places) (c ∷ s) = (place, word (c ∷ [])) ∷ characters places s
characters _ _ = []

abbrev pub places : List Text
places =
    codes "0"
    ∷ codes "1"
    ∷ codes "2"
    ∷ codes "3"
    ∷ codes "4"
    ∷ codes "5"
    ∷ codes "6"
    ∷ codes "7"
    ∷ codes "8"
    ∷ codes "9"
    ∷ codes "10"
    ∷ codes "11"
    ∷ codes "12"
    ∷ codes "13"
    ∷ codes "14"
    ∷ codes "15"
    ∷ codes "16"
    ∷ codes "17"
    ∷ []

-- `direct(className)` of a member of Object.prototype, called without an object; `__proto__` is an object
-- without members of its own.
unfoldable pub direct_member : Text → Outcome
unfolding text_eq characters
direct_member name =
    if text_eq name (codes "constructor")
    then mapped (characters places name)
    else if text_eq name (codes "toString")
    then mapped (characters places (codes "[object Undefined]"))
    else if text_eq name (codes "isPrototypeOf")
    then unknown
    else if text_eq name (codes "__proto__")
    then mapped []
    else thrown

unfoldable pub map_single_class : Text → Outcome
unfolding lookup is_member direct_member first_match pattern_mappers
map_single_class class_name = elim (lookup class_mappers class_name) [
  | some styles ↦ mapped styles
  | none ↦ elim (is_member prototype_members class_name) [
    | true ↦ direct_member class_name
    | false ↦ first_match pattern_mappers class_name
  ]
]

-- The prefixes for sizes of the screen, states and the dark mode.
unfoldable pub is_skipped : Text → Bool
unfolding starts_with
is_skipped cls =
    any (λ prefix. starts_with prefix cls)
      (codes "sm:"
        ∷ codes "md:"
        ∷ codes "lg:"
        ∷ codes "xl:"
        ∷ codes "2xl:"
        ∷ codes "hover:"
        ∷ codes "focus:"
        ∷ codes "active:"
        ∷ codes "disabled:"
        ∷ codes "group-hover:"
        ∷ codes "dark:"
        ∷ [])

-- `split(/\s+/)`, but that each white space parts two pieces.
unfoldable pub pieces : Text → Text × List Text
unfolding is_space
pieces [] = ([], [])
pieces (c ∷ s) =
    let (piece, rest) = pieces s in if is_space c then ([], piece ∷ rest) else (c ∷ piece, rest)

-- `filter(Boolean)`
unfoldable pub non_empty : List Text → List Text
non_empty [] = []
non_empty ([] ∷ l) = non_empty l
non_empty ((c ∷ s) ∷ l) = (c ∷ s) ∷ non_empty l

unfoldable pub class_list : Text → List Text
unfolding pieces non_empty
class_list classes = let (piece, rest) = pieces classes in non_empty (piece ∷ rest)

pub record MapResult : Type 0 where
  pub styles : Styles
  pub unmapped : List Text

unfoldable pub class_outcome : Text → Outcome
unfolding is_skipped map_single_class
class_outcome cls = if is_skipped cls then unknown else map_single_class cls

-- One round of the loop.
abbrev pub apply_outcome : Outcome → Text → MapResult → Option MapResult
unfolding assign
apply_outcome (mapped m) cls r = some (record { styles = assign r.styles m; unmapped = r.unmapped })
apply_outcome unknown cls r =
    some (record { styles = r.styles; unmapped = r.unmapped ++ (cls ∷ []) })
apply_outcome thrown cls r = none

unfoldable pub map_classes : List Text → MapResult → Option MapResult
unfolding apply_outcome
map_classes [] r = some r
map_classes (cls ∷ rest) r = elim (apply_outcome (class_outcome cls) cls r) [
  | none ↦ none
  | some next ↦ map_classes rest next
]

unfoldable pub tailwind_to_tui : Text → Option MapResult
unfolding map_classes class_list
tailwind_to_tui classes = map_classes (class_list classes) (record { styles = []; unmapped = [] })

unfoldable pub tw : Text → Option Styles
unfolding tailwind_to_tui
tw classes = elim (tailwind_to_tui classes) [ none ↦ none | some r ↦ some r.styles ]
