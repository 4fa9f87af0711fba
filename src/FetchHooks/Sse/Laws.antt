-- ===== src/FetchHooks/Sse/Laws.antt =====
-- The events of packages/fetch-hooks/src/sse-handler.ts: what was sent as `data:` is read back.
use effect_native.Prelude.{
  ℕ, ◌≡◌, refl, ap, false, List, [], ◌∷◌, ◌++◌, map, ◌∙◌, arith, Text, codes, starts_with,
  trim_start, is_blank, is_space, ◌==◌,
}
use effect_native.FetchHooks.Sse.{
  split_events, is_line_terminator, until_terminator, match_data, data_item, event_items, items_of,
  extract_all_sse_items, cons_head,
}

-- What a server sends for a payload.
abbrev pub sse_event : Text → Text
sse_event payload = codes "data: " ++ (payload ++ codes "\n\n")

abbrev pub sse_events : List Text → Text
sse_events [] = []
sse_events (p ∷ ps) = sse_event p ++ sse_events ps

-- On one line, with no white space before it.
abbrev pub IsLine : Text → Type 0
IsLine [] = Unit
IsLine (c ∷ s) = (is_line_terminator c ≡ false) × IsLine s

abbrev pub IsPayload : Text → Type 0
IsPayload p = IsLine p × (trim_start p ≡ p)

abbrev pub ArePayloads : List Text → Type 0
ArePayloads [] = Unit
ArePayloads (p ∷ ps) = IsPayload p × ArePayloads ps

until_terminator_line : (p : Text) → IsLine p → until_terminator p ≡ p
unfolding until_terminator
until_terminator_line [] h = refl
until_terminator_line (c ∷ s) (h, k) = rw (h, until_terminator_line s k)

-- A line terminator is tested for before anything else.
not_newline : (c : ℕ) → is_line_terminator c ≡ false → (c == 10) ≡ false
unfolding is_line_terminator
not_newline c h = ground arith

split_head :
    (c d : ℕ) (s : Text)
    → (c == 10) ≡ false
    → split_events (c ∷ d ∷ s) ≡ cons_head c (split_events (d ∷ s))
unfolding split_events
split_head c d s h = rw (split_events, h)

split_line :
    (p rest : Text) → IsLine p → split_events (p ++ (10 ∷ 10 ∷ rest)) ≡ p ∷ split_events rest
unfolding split_events
split_line [] rest h = refl
split_line (c ∷ []) rest (h, k) =
    split_head c 10 (10 ∷ rest) (not_newline c h) ∙ ap (cons_head c) (split_line [] rest k)
split_line (c ∷ d ∷ s) rest (h, k) =
    split_head c d (s ++ (10 ∷ 10 ∷ rest)) (not_newline c h)
    ∙ ap (cons_head c) (split_line (d ∷ s) rest k)

close_event : (p rest : Text) → (p ++ codes "\n\n") ++ rest ≡ p ++ (10 ∷ 10 ∷ rest)
close_event [] rest = refl
close_event (c ∷ p) rest = ap (λ s. c ∷ s) (close_event p rest)

events_split :
    (p rest : Text)
    → IsLine p
    → split_events (sse_event p ++ rest) ≡ (codes "data: " ++ p) ∷ split_events rest
unfolding is_line_terminator
events_split p rest h =
    ap (λ s. split_events (codes "data: " ++ s)) (close_event p rest)
    ∙ split_line (codes "data: " ++ p) rest (refl, (refl, (refl, (refl, (refl, (refl, h))))))

event_line : (p : Text) → IsPayload p → event_items (codes "data: " ++ p) ≡ data_item p ∷ []
unfolding event_items match_data is_blank starts_with trim_start is_space is_line_terminator
event_line p (h, k) = rw (k, until_terminator_line p h)

-- A response of `data:` events, whatever their number, is taken apart into their payloads, if each
-- payload stands on one line and does not begin with white space.
pub extract-sse_events :
    (ps : List Text) → ArePayloads ps → extract_all_sse_items (sse_events ps) ≡ map data_item ps
unfolding extract_all_sse_items items_of
extract-sse_events [] h = refl
extract-sse_events (p ∷ ps) (h, k) =
    ap items_of (events_split p (sse_events ps) h.0)
    ∙ ap (λ is. is ++ items_of (split_events (sse_events ps))) (event_line p h)
    ∙ ap (λ is. data_item p ∷ is) (extract-sse_events ps k)
