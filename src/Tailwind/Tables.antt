-- ===== src/Tailwind/Tables.antt =====
-- The tables of packages/opentui-dom/src/bridge/tailwind-mapper.ts, as the own members of its objects.
use effect_native.Prelude.{ℕ, List, [], ◌∷◌, Text, codes}

-- spacingScale
abbrev pub spacing_scale : List (Text × ℕ)
spacing_scale =
    (codes "0", 0)
    ∷ (codes "0.5", 0)
    ∷ (codes "1", 0)
    ∷ (codes "1.5", 0)
    ∷ (codes "2", 1)
    ∷ (codes "2.5", 1)
    ∷ (codes "3", 1)
    ∷ (codes "3.5", 1)
    ∷ (codes "4", 1)
    ∷ (codes "5", 1)
    ∷ (codes "6", 2)
    ∷ (codes "7", 2)
    ∷ (codes "8", 2)
    ∷ (codes "9", 2)
    ∷ (codes "10", 3)
    ∷ (codes "11", 3)
    ∷ (codes "12", 3)
    ∷ (codes "14", 4)
    ∷ (codes "16", 4)
    ∷ (codes "20", 5)
    ∷ (codes "24", 6)
    ∷ (codes "28", 7)
    ∷ (codes "32", 8)
    ∷ (codes "36", 9)
    ∷ (codes "40", 10)
    ∷ (codes "44", 11)
    ∷ (codes "48", 12)
    ∷ (codes "52", 13)
    ∷ (codes "56", 14)
    ∷ (codes "60", 15)
    ∷ (codes "64", 16)
    ∷ (codes "72", 18)
    ∷ (codes "80", 20)
    ∷ (codes "96", 24)
    ∷ (codes "px", 0)
    ∷ []

-- simpleColors
abbrev pub simple_colors : List (Text × Text)
simple_colors =
    (codes "white", codes "#FFFFFF")
    ∷ (codes "black", codes "#000000")
    ∷ (codes "transparent", codes "transparent")
    ∷ (codes "inherit", codes "inherit")
    ∷ (codes "current", codes "currentColor")
    ∷ []

-- fractionToPercent
abbrev pub fraction_to_percent : List (Text × Text)
fraction_to_percent =
    (codes "full", codes "100%")
    ∷ (codes "1/2", codes "50%")
    ∷ (codes "1/3", codes "33%")
    ∷ (codes "2/3", codes "67%")
    ∷ (codes "1/4", codes "25%")
    ∷ (codes "2/4", codes "50%")
    ∷ (codes "3/4", codes "75%")
    ∷ (codes "1/5", codes "20%")
    ∷ (codes "2/5", codes "40%")
    ∷ (codes "3/5", codes "60%")
    ∷ (codes "4/5", codes "80%")
    ∷ (codes "1/6", codes "17%")
    ∷ (codes "2/6", codes "33%")
    ∷ (codes "3/6", codes "50%")
    ∷ (codes "4/6", codes "67%")
    ∷ (codes "5/6", codes "83%")
    ∷ (codes "1/12", codes "8%")
    ∷ (codes "2/12", codes "17%")
    ∷ (codes "3/12", codes "25%")
    ∷ (codes "4/12", codes "33%")
    ∷ (codes "5/12", codes "42%")
    ∷ (codes "6/12", codes "50%")
    ∷ (codes "7/12", codes "58%")
    ∷ (codes "8/12", codes "67%")
    ∷ (codes "9/12", codes "75%")
    ∷ (codes "10/12", codes "83%")
    ∷ (codes "11/12", codes "92%")
    ∷ (codes "screen", codes "100%")
    ∷ (codes "min", codes "auto")
    ∷ (codes "max", codes "auto")
    ∷ (codes "fit", codes "auto")
    ∷ []

-- The named terminal colors of `parseColor`.
abbrev pub terminal_colors : List Text
terminal_colors =
    codes "red"
    ∷ codes "green"
    ∷ codes "blue"
    ∷ codes "yellow"
    ∷ codes "cyan"
    ∷ codes "magenta"
    ∷ codes "gray"
    ∷ codes "grey"
    ∷ []
