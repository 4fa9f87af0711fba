-- ===== src/FetchHooks/Sse.antt =====
-- packages/fetch-hooks/src/sse-handler.ts: the server-sent events in a chunk of a response.
pub mod Laws
use effect_native.Prelude.{
  ℕ, ◌&&◌, ◌||◌, Bool, true, false, Option, none, some, List, [], ◌∷◌, ◌++◌, Text, codes,
  starts_with, includes, trim_start, is_blank, drop, ◌==◌, if◌then◌else◌,
}
use effect_native.Prelude.Int.{ℤ}

-- `contentType.includes("text/event-stream")`, for a header that may be missing
unfoldable pub is_sse_response : Option Text → Bool
is_sse_response none = includes [] (codes "text/event-stream")
is_sse_response (some content_type) = includes content_type (codes "text/event-stream")

pub record TimedChunk : Type 0 where
  pub data_ : Text
  pub delay_ms : ℤ

abbrev pub chunk : Text → ℤ → TimedChunk
chunk d z = record { data_ = d; delay_ms = z }

-- `chunk.split(/\n\n/)`
abbrev pub cons_head : ℕ → List Text → List Text
cons_head c [] = (c ∷ []) ∷ []
cons_head c (t ∷ ts) = (c ∷ t) ∷ ts

unfoldable pub split_events : Text → List Text
split_events [] = [] ∷ []
split_events (c ∷ []) = (c ∷ []) ∷ []
split_events (c ∷ d ∷ s) = elim ((c == 10) && (d == 10)) [
  | true ↦ [] ∷ split_events s
  | false ↦ cons_head c (split_events (d ∷ s))
]

-- What `.` of a regular expression does not match, and after which `^` matches under the flag `m`.
unfoldable pub is_line_terminator : ℕ → Bool
is_line_terminator c = (c == 10) || (c == 13) || (c == 0x2028) || (c == 0x2029)

unfoldable pub until_terminator : Text → Text
unfolding is_line_terminator
until_terminator [] = []
until_terminator (c ∷ s) = if is_line_terminator c then [] else c ∷ until_terminator s

-- `event.match(/^data:\s*(.*)$/m)`: the payload of the first line that starts with `data:`. The white
-- space before the payload may include line ends.
unfoldable pub match_data : Bool → Text → Option Text
unfolding starts_with trim_start until_terminator is_line_terminator
match_data at_start [] = none
match_data at_start (c ∷ s) =
    let rest = match_data (is_line_terminator c) s in
    if at_start && starts_with (codes "data:") (c ∷ s)
    then some (until_terminator (trim_start (drop 4 s)))
    else rest

pub data SseItem : Type 0 where
  data_item : Text → SseItem
  comment_item : Text → SseItem

-- One round of the loop over the events.
unfoldable pub event_items : Text → List SseItem
unfolding match_data is_blank starts_with trim_start
event_items event = if is_blank event then [] else elim (match_data true event) [
  | some payload ↦ data_item payload ∷ []
  | none ↦
      if starts_with (codes ":") (trim_start event)
      then comment_item (event ++ codes "\n\n") ∷ []
      else []
]

unfoldable pub items_of : List Text → List SseItem
unfolding event_items
items_of [] = []
items_of (e ∷ es) = event_items e ++ items_of es

unfoldable pub extract_all_sse_items : Text → List SseItem
unfolding split_events items_of
extract_all_sse_items c = items_of (split_events c)
