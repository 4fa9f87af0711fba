-- ===== src/FetchHooks/Jsonl.antt =====
-- packages/fetch-hooks/src/sse-handler.ts: timed chunks as JSON lines, and back.
pub mod Lines
pub mod Laws
pub mod Replay
use effect_native.Prelude.{
  ℕ, ◌&&◌, ◌||◌, not, Bool, true, false, Option, none, some, List, [], ◌∷◌, ◌++◌, map, Text, codes,
  starts_with, trim_start, is_blank, keep, ◌==◌, if◌then◌else◌,
}
use effect_native.Prelude.Int.{ℤ, pos}
use effect_native.FetchHooks.Sse.{
  TimedChunk, chunk, SseItem, data_item, comment_item, extract_all_sse_items, cons_head,
}

-- The properties that the code reads of a parsed line, `__timing.delay_ms` among them.
pub record Fields (Value : Type 0) : Type 0 where
  pub json : Option Value
  pub text : Option Text
  pub comment : Option Text
  pub delay_ms : Option ℤ
  pub data_ : Option Text
  pub timing : Option ℤ

pub data JsonlRecord (Value : Type 0) : Type 0 where
  json : Value → JsonlRecord Value
  text : Text → JsonlRecord Value
  comment : Text → JsonlRecord Value
  delay_ms : ℤ → JsonlRecord Value

module _ {Value : Type 0} where
  abbrev no_fields : Fields Value
  no_fields = record {
    json = none;
    text = none;
    comment = none;
    delay_ms = none;
    data_ = none;
    timing = none;
  }

  abbrev pub fields_of : JsonlRecord Value → Fields Value
  fields_of (json v) = record no_fields { json = some v }
  fields_of (text t) = record no_fields { text = some t }
  fields_of (comment t) = record no_fields { comment = some t }
  fields_of (delay_ms z) = record no_fields { delay_ms = some z }

-- `JSON`, as far as the lines go: `none` is an exception.
pub record Json : Type 1 where
  pub Value : Type 0
  pub parse : Text → Option Value
  pub stringify : Value → Text
  pub is_null : Value → Bool
  pub stringify_record : JsonlRecord Value → Text
  pub parse_line : Text → Option (Fields Value)

-- `lines.join("\n")`
unfoldable pub join_lines : List Text → Text
join_lines [] = []
join_lines (l ∷ []) = l
join_lines (l ∷ m ∷ ls) = l ++ (10 ∷ join_lines (m ∷ ls))

-- `jsonl.split("\n")`
unfoldable pub split_lines : Text → List Text
split_lines [] = [] ∷ []
split_lines (c ∷ s) = let rest = split_lines s in if c == 10 then [] ∷ rest else cons_head c rest

abbrev pub sse_data : Text → Text
sse_data payload = codes "data: " ++ (payload ++ codes "\n\n")

abbrev pub cons_chunk : TimedChunk → Option (List TimedChunk) → Option (List TimedChunk)
cons_chunk c none = none
cons_chunk c (some cs) = some (c ∷ cs)

pub data Line : Type 0 where
  pause : ℤ → Line
  timed : Text → Line
  stamped : TimedChunk → Line
  skipped : Line
  broken : Line

abbrev legacy_line : Option (Option TimedChunk) → Line
legacy_line none = broken
legacy_line (some none) = skipped
legacy_line (some (some c)) = stamped c

module _ (j : Json) where
  -- `tryParseJson`, and the test of its answer against null
  unfoldable pub data_record : Text → JsonlRecord j.Value
  data_record payload = elim (j.parse payload) [
    | none ↦ text payload
    | some v ↦ if j.is_null v then text payload else json v
  ]

  unfoldable pub item_record : SseItem → JsonlRecord j.Value
  unfolding data_record
  item_record (data_item payload) = data_record payload
  item_record (comment_item raw) = comment raw

  abbrev pub records_or_raw : Text → List SseItem → List (JsonlRecord j.Value)
  records_or_raw d [] = (if starts_with (codes ":") (trim_start d) then comment d else text d) ∷ []
  records_or_raw d (i ∷ items) = item_record i ∷ map item_record items

  unfoldable pub chunk_records : TimedChunk → List (JsonlRecord j.Value)
  unfolding extract_all_sse_items item_record
  chunk_records c = records_or_raw c.data_ (extract_all_sse_items c.data_)

  -- The records of all chunks, with the delay of the next chunk between two of them.
  unfoldable pub timed_chunks_to_records : List TimedChunk → List (JsonlRecord j.Value)
  unfolding chunk_records
  timed_chunks_to_records [] = []
  timed_chunks_to_records (c ∷ []) = chunk_records c
  timed_chunks_to_records (c ∷ d ∷ cs) =
      chunk_records c ++ (delay_ms d.delay_ms ∷ timed_chunks_to_records (d ∷ cs))

  unfoldable pub timed_chunks_to_jsonl : List TimedChunk → Text
  unfolding join_lines timed_chunks_to_records
  timed_chunks_to_jsonl cs = join_lines (map j.stringify_record (timed_chunks_to_records cs))

  -- What a line with `__timing` gives; without it `__timing.delay_ms` throws.
  unfoldable pub legacy_chunk : Fields j.Value → Option (Option TimedChunk)
  legacy_chunk f = elim f.json [
    | some v ↦ elim f.timing [
      | none ↦ none
      | some z ↦ some (some (chunk (sse_data (j.stringify v)) z))
    ]
    | none ↦ elim f.text [
      | some t ↦ elim f.timing [ none ↦ none | some z ↦ some (some (chunk (sse_data t) z)) ]
      | none ↦ elim f.data_ [
        | none ↦ some none
        | some d ↦ elim f.timing [ none ↦ none | some z ↦ some (some (chunk d z)) ]
      ]
    ]
  ]

  -- The tests of the loop over the lines, in their order.
  unfoldable pub read_line : Fields j.Value → Line
  unfolding legacy_chunk
  read_line f = elim f.timing [
    | some z ↦ legacy_line (legacy_chunk f)
    | none ↦ elim f.delay_ms [
      | some z ↦ pause z
      | none ↦ elim f.json [
        | some v ↦ timed (sse_data (j.stringify v))
        | none ↦ elim f.text [
          | some t ↦ timed (sse_data t)
          | none ↦ elim f.comment [ some t ↦ timed t | none ↦ legacy_line (legacy_chunk f) ]
        ]
      ]
    ]
  ]

  -- The loop over the lines, `pending` being `pendingDelay`.
  unfoldable pub chunks_of : ℤ → List (Fields j.Value) → Option (List TimedChunk)
  unfolding read_line
  chunks_of pending [] = some []
  chunks_of pending (f ∷ fs) = elim (read_line f) [
    | pause z ↦ chunks_of z fs
    | timed t ↦ cons_chunk (chunk t pending) (chunks_of (pos 0) fs)
    | stamped c ↦ cons_chunk c (chunks_of pending fs)
    | skipped ↦ chunks_of pending fs
    | broken ↦ none
  ]

  -- Every line parsed; the loop throws at the first that does not parse, and so returns nothing.
  unfoldable pub parse_lines : List Text → Option (List (Fields j.Value))
  parse_lines [] = some []
  parse_lines (l ∷ ls) =
      let rest = parse_lines ls in
      elim (j.parse_line l) [
        | none ↦ none
        | some f ↦ elim rest [ none ↦ none | some fs ↦ some (f ∷ fs) ]
      ]

  unfoldable pub jsonl_to_timed_chunks : Text → Option (List TimedChunk)
  unfolding parse_lines chunks_of split_lines is_blank
  jsonl_to_timed_chunks jsonl =
      elim (parse_lines (keep (λ l. not (is_blank l)) (split_lines jsonl))) [
        | none ↦ none
        | some fs ↦ chunks_of (pos 0) fs
      ]
