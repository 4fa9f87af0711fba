-- ===== src/FetchHooks/Jsonl/Laws.antt =====
-- The recording format of packages/fetch-hooks/src/sse-handler.ts: what is written is read back.
use effect_native.Prelude.{
  ◌≡◌, refl, ap, Bool, true, false, not, Option, none, some, List, [], ◌∷◌, ◌++◌, map, ◌∙◌, sym,
  Text, codes, starts_with, trim_start, is_blank, keep, ◌==◌, if◌then◌else◌, all, All,
}
use mathlib.Core.List.{append-nil, map-append}
use effect_native.Prelude.Int.{ℤ, pos}
use effect_native.FetchHooks.Sse.{
  TimedChunk, chunk, SseItem, data_item, comment_item, extract_all_sse_items,
}
use effect_native.FetchHooks.Jsonl.{
  Fields, JsonlRecord, json, text, comment, delay_ms, fields_of, Json, chunk_records,
  records_or_raw, item_record, data_record, timed_chunks_to_records, timed_chunks_to_jsonl,
  join_lines, split_lines, sse_data, cons_chunk, read_line, chunks_of, parse_lines,
  jsonl_to_timed_chunks,
}
use effect_native.FetchHooks.Jsonl.Lines.{IsLine, split_lines-join_lines}
use effect_native.FetchHooks.Jsonl.Replay.{replay_stream_with_timing}

module _ (j : Json) where
  -- What a record replays as.
  abbrev pub replayed : JsonlRecord j.Value → Text
  replayed (json v) = sse_data (j.stringify v)
  replayed (text t) = sse_data t
  replayed (comment t) = t
  replayed (delay_ms z) = []

  abbrev pub stamp : ℤ → List (JsonlRecord j.Value) → List TimedChunk
  stamp z [] = []
  stamp z (r ∷ rs) = chunk (replayed r) z ∷ stamp (pos 0) rs

  -- The chunks of a recording as they come back: an event each, the delay of a chunk on its first.
  abbrev pub reread : ℤ → List TimedChunk → List TimedChunk
  reread z [] = []
  reread z (c ∷ []) = stamp z (chunk_records j c)
  reread z (c ∷ d ∷ cs) = stamp z (chunk_records j c) ++ reread d.delay_ms (d ∷ cs)

  -- Not a record of a delay.
  abbrev IsEvent : JsonlRecord j.Value → Type 0
  IsEvent (json v) = Unit
  IsEvent (text t) = Unit
  IsEvent (comment t) = Unit
  IsEvent (delay_ms z) = ⊥

  event_chunk :
      (z : ℤ) (r : JsonlRecord j.Value) (fs : List (Fields j.Value))
      → IsEvent r
      → chunks_of j z (fields_of r ∷ fs)
        ≡ cons_chunk (chunk (replayed r) z) (chunks_of j (pos 0) fs)
  unfolding chunks_of read_line
  event_chunk z (json v) fs h = refl
  event_chunk z (text t) fs h = refl
  event_chunk z (comment t) fs h = refl
  event_chunk z (delay_ms y) fs h = elim h [ ]

  abbrev append_chunks : List TimedChunk → Option (List TimedChunk) → Option (List TimedChunk)
  append_chunks [] o = o
  append_chunks (c ∷ cs) o = cons_chunk c (append_chunks cs o)

  append_chunks-some : (cs ds : List TimedChunk) → append_chunks cs (some ds) ≡ some (cs ++ ds)
  append_chunks-some [] ds = refl
  append_chunks-some (c ∷ cs) ds = rw (append_chunks-some cs ds)

  events_chunks :
      (r : JsonlRecord j.Value) (rs : List (JsonlRecord j.Value)) (z : ℤ)
      (fs : List (Fields j.Value))
      → IsEvent r
      → All IsEvent rs
      → chunks_of j z (map fields_of (r ∷ rs) ++ fs)
        ≡ append_chunks (stamp z (r ∷ rs)) (chunks_of j (pos 0) fs)
  events_chunks r [] z fs h k = event_chunk z r fs h
  events_chunks r (s ∷ rs) z fs h (k, ks) =
      event_chunk z r (map fields_of (s ∷ rs) ++ fs) h
      ∙ ap (cons_chunk (chunk (replayed r) z)) (events_chunks s rs (pos 0) fs k ks)

  item_IsEvent : (i : SseItem) → IsEvent (item_record j i)
  unfolding item_record data_record
  item_IsEvent (comment_item t) = tt
  item_IsEvent (data_item t) =
      elim (j.parse t)
        as (λ o.
          IsEvent (elim o [ none ↦ text t | some v ↦ if j.is_null v then text t else json v ])) [
            | none ↦ tt
            | some v ↦ elim (j.is_null v) as (λ b. IsEvent (if b then text t else json v)) [
              | true ↦ tt
              | false ↦ tt
            ]
          ]

  items_AreEvents : (is : List SseItem) → All IsEvent (map (item_record j) is)
  items_AreEvents [] = tt
  items_AreEvents (i ∷ is) = (item_IsEvent i, items_AreEvents is)

  raw_IsEvent : (b : Bool) (t : Text) → IsEvent (if b then comment t else text t)
  raw_IsEvent true t = tt
  raw_IsEvent false t = tt

  items_chunks :
      (t : Text) (is : List SseItem) (z : ℤ) (fs : List (Fields j.Value))
      → chunks_of j z (map fields_of (records_or_raw j t is) ++ fs)
        ≡ append_chunks (stamp z (records_or_raw j t is)) (chunks_of j (pos 0) fs)
  items_chunks t [] z fs =
      events_chunks _ [] z fs (raw_IsEvent (starts_with (codes ":") (trim_start t)) t) tt
  items_chunks t (i ∷ is) z fs = events_chunks _ _ z fs (item_IsEvent i) (items_AreEvents is)

  chunk_chunks :
      (c : TimedChunk) (z : ℤ) (fs : List (Fields j.Value))
      → chunks_of j z (map fields_of (chunk_records j c) ++ fs)
        ≡ append_chunks (stamp z (chunk_records j c)) (chunks_of j (pos 0) fs)
  unfolding chunk_records
  chunk_chunks c = items_chunks c.data_ (extract_all_sse_items c.data_)

  chunks_reread :
      (z : ℤ) (cs : List TimedChunk)
      → chunks_of j z (map fields_of (timed_chunks_to_records j cs)) ≡ some (reread z cs)
  unfolding timed_chunks_to_records chunks_of read_line
  chunks_reread z [] = refl
  chunks_reread z (c ∷ []) =
      ap (chunks_of j z) (sym (append-nil (map fields_of (chunk_records j c))))
      ∙ chunk_chunks c z []
      ∙ append_chunks-some (stamp z (chunk_records j c)) []
      ∙ ap some (append-nil (stamp z (chunk_records j c)))
  chunks_reread z (c ∷ d ∷ cs) =
      ap (chunks_of j z) (
        map-append fields_of (chunk_records j c)
          (delay_ms d.delay_ms ∷ timed_chunks_to_records j (d ∷ cs)))
      ∙ chunk_chunks c z (map fields_of (delay_ms d.delay_ms ∷ timed_chunks_to_records j (d ∷ cs)))
      ∙ ap (append_chunks (stamp z (chunk_records j c))) (chunks_reread d.delay_ms (d ∷ cs))
      ∙ append_chunks-some (stamp z (chunk_records j c)) (reread d.delay_ms (d ∷ cs))

  -- A chunk that is one event, in the form in which it is written again.
  abbrev pub IsCanonical : TimedChunk → Type 0
  IsCanonical c = (r : JsonlRecord j.Value) × (chunk_records j c ≡ r ∷ []) × (replayed r ≡ c.data_)

  reread_one :
      (z : ℤ) (c : TimedChunk) → IsCanonical c → stamp z (chunk_records j c) ≡ chunk c.data_ z ∷ []
  reread_one z c (r, h, k) = rw (h, k)

  reread_same :
      (c : TimedChunk) (cs : List TimedChunk) (z : ℤ)
      → IsCanonical c
      → All IsCanonical cs
      → reread z (c ∷ cs) ≡ chunk c.data_ z ∷ cs
  reread_same c [] z h k = reread_one z c h
  reread_same c (d ∷ cs) z h (k, ks) =
      ap (λ l. l ++ reread d.delay_ms (d ∷ cs)) (reread_one z c h)
      ∙ ap (λ l. chunk c.data_ z ∷ l) (reread_same d cs d.delay_ms k ks)

module _ (j : Json)
    (h_parse : (r : JsonlRecord j.Value) → j.parse_line (j.stringify_record r) ≡ some (fields_of r))
    (h_line : (r : JsonlRecord j.Value) → all (λ c. not (c == 10)) (j.stringify_record r) ≡ true)
    (h_blank : (r : JsonlRecord j.Value) → is_blank (j.stringify_record r) ≡ false) where
  lines_AreLines : (rs : List (JsonlRecord j.Value)) → All IsLine (map j.stringify_record rs)
  lines_AreLines [] = tt
  lines_AreLines (r ∷ rs) = (h_line r, lines_AreLines rs)

  keep_lines :
      (rs : List (JsonlRecord j.Value))
      → keep (λ l. not (is_blank l)) (map j.stringify_record rs) ≡ map j.stringify_record rs
  keep_lines [] = refl
  keep_lines (r ∷ rs) = rw (h_blank r, keep_lines rs)

  parse_all :
      (rs : List (JsonlRecord j.Value))
      → parse_lines j (map j.stringify_record rs) ≡ some (map fields_of rs)
  unfolding parse_lines
  parse_all [] = refl
  parse_all (r ∷ rs) = rw (h_parse r, parse_all rs)

  -- The lines of records are read back as the records.
  read_records :
      (rs : List (JsonlRecord j.Value))
      → jsonl_to_timed_chunks j (join_lines (map j.stringify_record rs))
        ≡ chunks_of j (pos 0) (map fields_of rs)
  unfolding jsonl_to_timed_chunks join_lines split_lines parse_lines is_blank
  read_records [] = refl
  read_records (r ∷ rs) = rw (
    split_lines-join_lines (j.stringify_record r) (map j.stringify_record rs) (h_line r)
        (lines_AreLines rs),
    keep_lines (r ∷ rs),
    parse_all (r ∷ rs),
  )

  -- If a record is read back from its line, and no line is blank or holds a line end, then a recording
  -- written as JSON lines comes back as its events: each chunk's delay (for the first chunk, 0) on its
  -- first event, and the delay 0 on its others.
  pub jsonl_to_timed_chunks-timed_chunks_to_jsonl :
      (cs : List TimedChunk)
      → jsonl_to_timed_chunks j (timed_chunks_to_jsonl j cs) ≡ some (reread j (pos 0) cs)
  unfolding timed_chunks_to_jsonl
  jsonl_to_timed_chunks-timed_chunks_to_jsonl cs =
      read_records (timed_chunks_to_records j cs) ∙ chunks_reread j (pos 0) cs

  -- If a record is read back from its line, and no line is blank or holds a line end, then a stream
  -- whose chunks are one event each, in the form in which events are written again, is replayed with
  -- the same texts and waits after it was stored as before.
  pub replay-stored :
      (cs : List TimedChunk)
      → All (IsCanonical j) cs
      → (ds : List TimedChunk) × (jsonl_to_timed_chunks j (timed_chunks_to_jsonl j cs) ≡ some ds)
        × (replay_stream_with_timing 0 ds ≡ replay_stream_with_timing 0 cs)
  unfolding replay_stream_with_timing
  replay-stored [] h = ([], jsonl_to_timed_chunks-timed_chunks_to_jsonl [], refl)
  replay-stored (c ∷ cs) (h, k) = (
    chunk c.data_ (pos 0) ∷ cs,
    jsonl_to_timed_chunks-timed_chunks_to_jsonl (c ∷ cs) ∙ ap some (reread_same j c cs (pos 0) h k),
    refl,
  )
