-- ===== src/FetchHooks/Tests.antt =====
-- A recorded stream of two events, with a stand-in for `JSON`, and the theorems at it.
mod Memory
mod Codec
mod Files
use effect_native.Prelude.{
  ℕ, ◌+◌, ◌-◌, ◌≤◌, ◌≡◌, refl, true, false, not, Option, none, some, List, [], ◌∷◌, map, Text,
  codes, starts_with, trim_start, is_blank, is_space, ◌==◌, if◌then◌else◌, all, arith, leb, ◌&&◌,
  ◌↔◌, text_eq,
}
use effect_native.FetchHooks.Headers.{
  get, get_storable_headers, is_sensitive, is_cache_enabled, is_production, has_text,
}
use effect_native.FetchHooks.Headers.Laws.{get-get_storable_headers, is_cache_enabled_lem}
use effect_native.Prelude.Int.{pos, negsuc}
use effect_native.FetchHooks.Sse.{
  TimedChunk, chunk, data_item, extract_all_sse_items, split_events, until_terminator, match_data,
  event_items, items_of, is_line_terminator,
}
use effect_native.FetchHooks.Sse.Laws.{extract-sse_events}
use effect_native.FetchHooks.Jsonl.{
  Fields, JsonlRecord, json, text, comment, delay_ms, fields_of, Json, chunk_records, item_record,
  data_record, timed_chunks_to_jsonl, jsonl_to_timed_chunks,
}
use effect_native.FetchHooks.Jsonl.Laws.{jsonl_to_timed_chunks-timed_chunks_to_jsonl, replay-stored}
use effect_native.FetchHooks.Jsonl.Replay.{
  replay_stream_with_timing, replay_stream_from_async_iterable, waited, sent, replays_agree,
  waited-replay_stream_with_timing,
}

-- A text in braces is a value, and a record is written as its kind and its text, above the controls.
abbrev pub encode : Text → Text
encode = map (λ c. c + 64)

abbrev pub decode : Text → Text
decode = map (λ c. c - 64)

abbrev pub write_record : JsonlRecord Text → Text
write_record (json v) = 106 ∷ encode v
write_record (text t) = 116 ∷ encode t
write_record (comment t) = 99 ∷ encode t
write_record (delay_ms (pos n)) = 100 ∷ (n + 64) ∷ []
write_record (delay_ms (negsuc n)) = 101 ∷ (n + 64) ∷ []

abbrev pub delay_of : ℕ → Text → Option (JsonlRecord Text)
delay_of k [] = none
delay_of k (n ∷ s) = some (delay_ms (if k == 100 then pos (n - 64) else negsuc (n - 64)))

abbrev pub read_record : Text → Option (JsonlRecord Text)
read_record [] = none
read_record (k ∷ s) =
    if k == 106
    then some (json (decode s))
    else if k == 116
    then some (text (decode s))
    else if k == 99
    then some (comment (decode s))
    else delay_of k s

abbrev pub record_fields : Option (JsonlRecord Text) → Option (Fields Text)
record_fields none = none
record_fields (some r) = some (fields_of r)

abbrev pub braces : Json
braces = record {
  Value = Text;
  parse = λ t. if starts_with (codes "{") t then some t else none;
  stringify = λ v. v;
  is_null = λ v. false;
  stringify_record = write_record;
  parse_line = λ t. record_fields (read_record t);
}

add_sub : (n : ℕ) → n + 64 - 64 ≡ n
add_sub n = omega arith

decode-encode : (t : Text) → decode (encode t) ≡ t
decode-encode [] = refl
decode-encode (c ∷ t) = rw (decode-encode t, add_sub c)

pub braces_parse :
    (r : JsonlRecord Text) → record_fields (read_record (write_record r)) ≡ some (fields_of r)
braces_parse (json v) = rw (decode-encode v)
braces_parse (text t) = rw (decode-encode t)
braces_parse (comment t) = rw (decode-encode t)
braces_parse (delay_ms (pos n)) = rw (add_sub n)
braces_parse (delay_ms (negsuc n)) = rw (add_sub n)

encode_line : (t : Text) → all (λ c. not (c == 10)) (encode t) ≡ true
encode_line [] = refl
encode_line (c ∷ t) = ground (arith, encode_line t)

pub braces_line : (r : JsonlRecord Text) → all (λ c. not (c == 10)) (write_record r) ≡ true
braces_line (json v) = encode_line v
braces_line (text t) = encode_line t
braces_line (comment t) = encode_line t
braces_line (delay_ms (pos n)) = encode_line (n ∷ [])
braces_line (delay_ms (negsuc n)) = encode_line (n ∷ [])

pub braces_blank : (r : JsonlRecord Text) → is_blank (write_record r) ≡ false
unfolding is_blank is_space
braces_blank (json v) = refl
braces_blank (text t) = refl
braces_blank (comment t) = refl
braces_blank (delay_ms (pos n)) = refl
braces_blank (delay_ms (negsuc n)) = refl

abbrev two_events : List TimedChunk
two_events =
    chunk (codes "data: {1}\n\n") (pos 5) ∷ chunk (codes "data: hello\n\n") (pos 40000) ∷ []

extract-sse_events_example :
    extract_all_sse_items (codes "data: {1}\n\ndata: [DONE]\n\n")
    ≡ data_item (codes "{1}") ∷ data_item (codes "[DONE]") ∷ []
unfolding is_line_terminator trim_start is_space
extract-sse_events_example = extract-sse_events (codes "{1}" ∷ codes "[DONE]" ∷ []) (
  ((refl, (refl, (refl, tt))), refl),
  (((refl, (refl, (refl, (refl, (refl, (refl, tt)))))), refl), tt),
)

jsonl_to_timed_chunks-timed_chunks_to_jsonl_example :
    jsonl_to_timed_chunks braces (timed_chunks_to_jsonl braces two_events)
    ≡ some
        (chunk (codes "data: {1}\n\n") (pos 0) ∷ chunk (codes "data: hello\n\n") (pos 40000) ∷ [])
unfolding chunk_records extract_all_sse_items split_events items_of event_items match_data
    until_terminator is_line_terminator trim_start is_space is_blank starts_with item_record
    data_record
jsonl_to_timed_chunks-timed_chunks_to_jsonl_example =
    jsonl_to_timed_chunks-timed_chunks_to_jsonl braces braces_parse braces_line braces_blank
      two_events

replay-stored_example :
    (ds : List TimedChunk) × (jsonl_to_timed_chunks braces (timed_chunks_to_jsonl braces two_events)
      ≡ some ds)
    × (replay_stream_with_timing 0 ds ≡ replay_stream_with_timing 0 two_events)
unfolding chunk_records extract_all_sse_items split_events items_of event_items match_data
    until_terminator is_line_terminator trim_start is_space is_blank starts_with item_record
    data_record
replay-stored_example =
    replay-stored braces braces_parse braces_line braces_blank two_events
      ((json (codes "{1}"), refl, refl), ((text (codes "hello"), refl, refl), tt))

waited-replay_stream_with_timing_example : waited (replay_stream_with_timing 0 two_events) ≤ 30000
waited-replay_stream_with_timing_example = waited-replay_stream_with_timing two_events

abbrev two_headers : List (Text × Text)
two_headers = (codes "Cookie", codes "1") ∷ (codes "accept", codes "2") ∷ []

abbrev lower : Text → Text
lower = map (λ c. if leb 65 c && leb c 90 then c + 32 else c)

get-get_storable_headers_example :
    get (get_storable_headers lower two_headers) (codes "Cookie") ≡ none
unfolding is_sensitive text_eq
get-get_storable_headers_example = get-get_storable_headers lower two_headers (codes "Cookie")
