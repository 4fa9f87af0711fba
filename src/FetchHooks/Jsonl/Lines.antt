-- ===== src/FetchHooks/Jsonl/Lines.antt =====
-- The lines of a recording, as packages/fetch-hooks/src/sse-handler.ts joins and splits them.
use effect_native.Prelude.{
  ◌≡◌, refl, ap, true, not, List, [], ◌∷◌, ◌++◌, ◌∙◌, arith, Text, ◌==◌, Bool-cases, inl, inr, all,
  All,
}
use effect_native.FetchHooks.Jsonl.{join_lines, split_lines}

-- Without a line end.
abbrev pub IsLine : Text → Type 0
IsLine l = all (λ c. not (c == 10)) l ≡ true

split_line : (l : Text) → IsLine l → split_lines l ≡ l ∷ []
unfolding split_lines
split_line [] h = refl
split_line (c ∷ l) h = elim (Bool-cases (c == 10)) [
  | inl e ↦ ground (arith, e, h)
  | inr e ↦ rw (e, split_line l (ground (arith, e, h)))
]

split_lines-line : (l s : Text) → IsLine l → split_lines (l ++ (10 ∷ s)) ≡ l ∷ split_lines s
unfolding split_lines
split_lines-line [] s h = refl
split_lines-line (c ∷ l) s h = elim (Bool-cases (c == 10)) [
  | inl e ↦ ground (arith, e, h)
  | inr e ↦ rw (e, split_lines-line l s (ground (arith, e, h)))
]

-- Lines that are joined are split into the same lines.
pub split_lines-join_lines :
    (l : Text) (ls : List Text)
    → IsLine l
    → All IsLine ls
    → split_lines (join_lines (l ∷ ls)) ≡ l ∷ ls
unfolding join_lines
split_lines-join_lines l [] h k = split_line l h
split_lines-join_lines l (m ∷ ls) h (k, ks) =
    split_lines-line l (join_lines (m ∷ ls)) h
    ∙ ap (λ rest. l ∷ rest) (split_lines-join_lines m ls k ks)
