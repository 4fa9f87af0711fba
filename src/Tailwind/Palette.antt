-- ===== src/Tailwind/Palette.antt =====
-- `colorPalette` of packages/opentui-dom/src/bridge/tailwind-mapper.ts.
use effect_native.Prelude.{List, [], ◌∷◌, Text, codes}

abbrev pub Palette : Type 0
Palette = List (Text × Text)

abbrev slate : Palette
slate =
    (codes "50", codes "#F8FAFC")
    ∷ (codes "100", codes "#F1F5F9")
    ∷ (codes "200", codes "#E2E8F0")
    ∷ (codes "300", codes "#CBD5E1")
    ∷ (codes "400", codes "#94A3B8")
    ∷ (codes "500", codes "#64748B")
    ∷ (codes "600", codes "#475569")
    ∷ (codes "700", codes "#334155")
    ∷ (codes "800", codes "#1E293B")
    ∷ (codes "900", codes "#0F172A")
    ∷ (codes "950", codes "#020617")
    ∷ []

abbrev gray : Palette
gray =
    (codes "50", codes "#F9FAFB")
    ∷ (codes "100", codes "#F3F4F6")
    ∷ (codes "200", codes "#E5E7EB")
    ∷ (codes "300", codes "#D1D5DB")
    ∷ (codes "400", codes "#9CA3AF")
    ∷ (codes "500", codes "#6B7280")
    ∷ (codes "600", codes "#4B5563")
    ∷ (codes "700", codes "#374151")
    ∷ (codes "800", codes "#1F2937")
    ∷ (codes "900", codes "#111827")
    ∷ (codes "950", codes "#030712")
    ∷ []

abbrev zinc : Palette
zinc =
    (codes "50", codes "#FAFAFA")
    ∷ (codes "100", codes "#F4F4F5")
    ∷ (codes "200", codes "#E4E4E7")
    ∷ (codes "300", codes "#D4D4D8")
    ∷ (codes "400", codes "#A1A1AA")
    ∷ (codes "500", codes "#71717A")
    ∷ (codes "600", codes "#52525B")
    ∷ (codes "700", codes "#3F3F46")
    ∷ (codes "800", codes "#27272A")
    ∷ (codes "900", codes "#18181B")
    ∷ (codes "950", codes "#09090B")
    ∷ []

abbrev red : Palette
red =
    (codes "50", codes "#FEF2F2")
    ∷ (codes "100", codes "#FEE2E2")
    ∷ (codes "200", codes "#FECACA")
    ∷ (codes "300", codes "#FCA5A5")
    ∷ (codes "400", codes "#F87171")
    ∷ (codes "500", codes "#EF4444")
    ∷ (codes "600", codes "#DC2626")
    ∷ (codes "700", codes "#B91C1C")
    ∷ (codes "800", codes "#991B1B")
    ∷ (codes "900", codes "#7F1D1D")
    ∷ (codes "950", codes "#450A0A")
    ∷ []

abbrev orange : Palette
orange =
    (codes "50", codes "#FFF7ED")
    ∷ (codes "100", codes "#FFEDD5")
    ∷ (codes "200", codes "#FED7AA")
    ∷ (codes "300", codes "#FDBA74")
    ∷ (codes "400", codes "#FB923C")
    ∷ (codes "500", codes "#F97316")
    ∷ (codes "600", codes "#EA580C")
    ∷ (codes "700", codes "#C2410C")
    ∷ (codes "800", codes "#9A3412")
    ∷ (codes "900", codes "#7C2D12")
    ∷ (codes "950", codes "#431407")
    ∷ []

abbrev yellow : Palette
yellow =
    (codes "50", codes "#FEFCE8")
    ∷ (codes "100", codes "#FEF9C3")
    ∷ (codes "200", codes "#FEF08A")
    ∷ (codes "300", codes "#FDE047")
    ∷ (codes "400", codes "#FACC15")
    ∷ (codes "500", codes "#EAB308")
    ∷ (codes "600", codes "#CA8A04")
    ∷ (codes "700", codes "#A16207")
    ∷ (codes "800", codes "#854D0E")
    ∷ (codes "900", codes "#713F12")
    ∷ (codes "950", codes "#422006")
    ∷ []

abbrev green : Palette
green =
    (codes "50", codes "#F0FDF4")
    ∷ (codes "100", codes "#DCFCE7")
    ∷ (codes "200", codes "#BBF7D0")
    ∷ (codes "300", codes "#86EFAC")
    ∷ (codes "400", codes "#4ADE80")
    ∷ (codes "500", codes "#22C55E")
    ∷ (codes "600", codes "#16A34A")
    ∷ (codes "700", codes "#15803D")
    ∷ (codes "800", codes "#166534")
    ∷ (codes "900", codes "#14532D")
    ∷ (codes "950", codes "#052E16")
    ∷ []

abbrev blue : Palette
blue =
    (codes "50", codes "#EFF6FF")
    ∷ (codes "100", codes "#DBEAFE")
    ∷ (codes "200", codes "#BFDBFE")
    ∷ (codes "300", codes "#93C5FD")
    ∷ (codes "400", codes "#60A5FA")
    ∷ (codes "500", codes "#3B82F6")
    ∷ (codes "600", codes "#2563EB")
    ∷ (codes "700", codes "#1D4ED8")
    ∷ (codes "800", codes "#1E40AF")
    ∷ (codes "900", codes "#1E3A8A")
    ∷ (codes "950", codes "#172554")
    ∷ []

abbrev purple : Palette
purple =
    (codes "50", codes "#FAF5FF")
    ∷ (codes "100", codes "#F3E8FF")
    ∷ (codes "200", codes "#E9D5FF")
    ∷ (codes "300", codes "#D8B4FE")
    ∷ (codes "400", codes "#C084FC")
    ∷ (codes "500", codes "#A855F7")
    ∷ (codes "600", codes "#9333EA")
    ∷ (codes "700", codes "#7E22CE")
    ∷ (codes "800", codes "#6B21A8")
    ∷ (codes "900", codes "#581C87")
    ∷ (codes "950", codes "#3B0764")
    ∷ []

abbrev pink : Palette
pink =
    (codes "50", codes "#FDF2F8")
    ∷ (codes "100", codes "#FCE7F3")
    ∷ (codes "200", codes "#FBCFE8")
    ∷ (codes "300", codes "#F9A8D4")
    ∷ (codes "400", codes "#F472B6")
    ∷ (codes "500", codes "#EC4899")
    ∷ (codes "600", codes "#DB2777")
    ∷ (codes "700", codes "#BE185D")
    ∷ (codes "800", codes "#9D174D")
    ∷ (codes "900", codes "#831843")
    ∷ (codes "950", codes "#500724")
    ∷ []

abbrev cyan : Palette
cyan =
    (codes "50", codes "#ECFEFF")
    ∷ (codes "100", codes "#CFFAFE")
    ∷ (codes "200", codes "#A5F3FC")
    ∷ (codes "300", codes "#67E8F9")
    ∷ (codes "400", codes "#22D3EE")
    ∷ (codes "500", codes "#06B6D4")
    ∷ (codes "600", codes "#0891B2")
    ∷ (codes "700", codes "#0E7490")
    ∷ (codes "800", codes "#155E75")
    ∷ (codes "900", codes "#164E63")
    ∷ (codes "950", codes "#083344")
    ∷ []

abbrev pub color_palette : List (Text × Palette)
color_palette =
    (codes "slate", slate)
    ∷ (codes "gray", gray)
    ∷ (codes "zinc", zinc)
    ∷ (codes "red", red)
    ∷ (codes "orange", orange)
    ∷ (codes "yellow", yellow)
    ∷ (codes "green", green)
    ∷ (codes "blue", blue)
    ∷ (codes "purple", purple)
    ∷ (codes "pink", pink)
    ∷ (codes "cyan", cyan)
    ∷ []
