-- ===== src/Tailwind/Classes.antt =====
-- `classMappers` of packages/opentui-dom/src/bridge/tailwind-mapper.ts.
use effect_native.Prelude.{true, false, List, [], ◌∷◌, Text, codes}
use effect_native.Prelude.Int.{pos}
use effect_native.Tailwind.Values.{Styles, number, word, flag, sides}

abbrev pub class_mappers : List (Text × Styles)
class_mappers =
    (codes "flex", [])
    ∷ (codes "flex-row", (codes "flexDirection", word (codes "row")) ∷ [])
    ∷ (codes "flex-col", (codes "flexDirection", word (codes "column")) ∷ [])
    ∷ (codes "flex-row-reverse", (codes "flexDirection", word (codes "row-reverse")) ∷ [])
    ∷ (codes "flex-col-reverse", (codes "flexDirection", word (codes "column-reverse")) ∷ [])
    ∷ (codes "flex-wrap", (codes "flexWrap", word (codes "wrap")) ∷ [])
    ∷ (codes "flex-nowrap", (codes "flexWrap", word (codes "no-wrap")) ∷ [])
    ∷ (codes "flex-wrap-reverse", (codes "flexWrap", word (codes "wrap-reverse")) ∷ [])
    ∷ (
      codes "flex-1",
      (codes "flexGrow", number (pos 1))
          ∷ (codes "flexShrink", number (pos 1))
          ∷ (codes "flexBasis", number (pos 0))
          ∷ [],
    )
    ∷ (
      codes "flex-auto",
      (codes "flexGrow", number (pos 1))
          ∷ (codes "flexShrink", number (pos 1))
          ∷ (codes "flexBasis", word (codes "auto"))
          ∷ [],
    )
    ∷ (
      codes "flex-initial",
      (codes "flexGrow", number (pos 0))
          ∷ (codes "flexShrink", number (pos 1))
          ∷ (codes "flexBasis", word (codes "auto"))
          ∷ [],
    )
    ∷ (
      codes "flex-none",
      (codes "flexGrow", number (pos 0))
          ∷ (codes "flexShrink", number (pos 0))
          ∷ (codes "flexBasis", word (codes "auto"))
          ∷ [],
    )
    ∷ (codes "grow", (codes "flexGrow", number (pos 1)) ∷ [])
    ∷ (codes "grow-0", (codes "flexGrow", number (pos 0)) ∷ [])
    ∷ (codes "shrink", (codes "flexShrink", number (pos 1)) ∷ [])
    ∷ (codes "shrink-0", (codes "flexShrink", number (pos 0)) ∷ [])
    ∷ (codes "justify-start", (codes "justifyContent", word (codes "flex-start")) ∷ [])
    ∷ (codes "justify-center", (codes "justifyContent", word (codes "center")) ∷ [])
    ∷ (codes "justify-end", (codes "justifyContent", word (codes "flex-end")) ∷ [])
    ∷ (codes "justify-between", (codes "justifyContent", word (codes "space-between")) ∷ [])
    ∷ (codes "justify-around", (codes "justifyContent", word (codes "space-around")) ∷ [])
    ∷ (codes "justify-evenly", (codes "justifyContent", word (codes "space-evenly")) ∷ [])
    ∷ (codes "items-start", (codes "alignItems", word (codes "flex-start")) ∷ [])
    ∷ (codes "items-center", (codes "alignItems", word (codes "center")) ∷ [])
    ∷ (codes "items-end", (codes "alignItems", word (codes "flex-end")) ∷ [])
    ∷ (codes "items-stretch", (codes "alignItems", word (codes "stretch")) ∷ [])
    ∷ (codes "items-baseline", (codes "alignItems", word (codes "baseline")) ∷ [])
    ∷ (codes "self-auto", (codes "alignSelf", word (codes "auto")) ∷ [])
    ∷ (codes "self-start", (codes "alignSelf", word (codes "flex-start")) ∷ [])
    ∷ (codes "self-center", (codes "alignSelf", word (codes "center")) ∷ [])
    ∷ (codes "self-end", (codes "alignSelf", word (codes "flex-end")) ∷ [])
    ∷ (codes "self-stretch", (codes "alignSelf", word (codes "stretch")) ∷ [])
    ∷ (codes "font-bold", (codes "bold", flag true) ∷ [])
    ∷ (codes "font-normal", (codes "bold", flag false) ∷ [])
    ∷ (codes "italic", (codes "italic", flag true) ∷ [])
    ∷ (codes "not-italic", (codes "italic", flag false) ∷ [])
    ∷ (codes "underline", (codes "underline", flag true) ∷ [])
    ∷ (codes "no-underline", (codes "underline", flag false) ∷ [])
    ∷ (codes "line-through", (codes "strikethrough", flag true) ∷ [])
    ∷ (
      codes "border",
      (codes "border", flag true) ∷ (codes "borderStyle", word (codes "single")) ∷ [],
    )
    ∷ (codes "border-0", (codes "border", flag false) ∷ [])
    ∷ (
      codes "border-2",
      (codes "border", flag true) ∷ (codes "borderStyle", word (codes "double")) ∷ [],
    )
    ∷ (
      codes "border-4",
      (codes "border", flag true) ∷ (codes "borderStyle", word (codes "heavy")) ∷ [],
    )
    ∷ (codes "border-t", (codes "border", sides (codes "top" ∷ [])) ∷ [])
    ∷ (codes "border-r", (codes "border", sides (codes "right" ∷ [])) ∷ [])
    ∷ (codes "border-b", (codes "border", sides (codes "bottom" ∷ [])) ∷ [])
    ∷ (codes "border-l", (codes "border", sides (codes "left" ∷ [])) ∷ [])
    ∷ (codes "rounded", (codes "borderStyle", word (codes "rounded")) ∷ [])
    ∷ (codes "rounded-none", (codes "borderStyle", word (codes "single")) ∷ [])
    ∷ (codes "hidden", (codes "visible", flag false) ∷ [])
    ∷ (codes "invisible", (codes "visible", flag false) ∷ [])
    ∷ (codes "visible", (codes "visible", flag true) ∷ [])
    ∷ (codes "overflow-hidden", (codes "overflow", word (codes "hidden")) ∷ [])
    ∷ (codes "overflow-visible", (codes "overflow", word (codes "visible")) ∷ [])
    ∷ (codes "overflow-scroll", (codes "overflow", word (codes "scroll")) ∷ [])
    ∷ (codes "overflow-auto", (codes "overflow", word (codes "scroll")) ∷ [])
    ∷ (codes "static", (codes "position", word (codes "static")) ∷ [])
    ∷ (codes "relative", (codes "position", word (codes "relative")) ∷ [])
    ∷ (codes "absolute", (codes "position", word (codes "absolute")) ∷ [])
    ∷ (
      codes "inset-0",
      (codes "top", number (pos 0))
          ∷ (codes "right", number (pos 0))
          ∷ (codes "bottom", number (pos 0))
          ∷ (codes "left", number (pos 0))
          ∷ [],
    )
    ∷ []
