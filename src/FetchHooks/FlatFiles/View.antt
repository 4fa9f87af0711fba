-- ===== src/FetchHooks/FlatFiles/View.antt =====
-- The abstract cache in the files of packages/fetch-hooks/src/flat-file-storage.ts.
use effect_native.Prelude.{ℕ, ◌≡◌, Bool, true, Option, none, some, List, [], Text}
use effect_native.FetchHooks.Io.{is_some}
use effect_native.FetchHooks.Sse.{TimedChunk}
use effect_native.FetchHooks.Jsonl.{Json, jsonl_to_timed_chunks}
use effect_native.FetchHooks.Types.{CachedRequest, CachedResponseMeta}
use effect_native.FetchHooks.Implements.{Contents}
use effect_native.FetchHooks.FlatFiles.{JsonAt}
use effect_native.FetchHooks.FlatFiles.Disk.{Slot, request, meta, body, binary, chunks}

abbrev pub parsed : {V : Type 0} → JsonAt V → Option Text → Option V
parsed json none = none
parsed json (some t) = json.parse t

abbrev pub or_none : {A : Type 0} → Option (List A) → List A
or_none none = []
or_none (some l) = l

abbrev pub chunks_in : Json → Option Text → List TimedChunk
chunks_in lines none = []
chunks_in lines (some t) = or_none (jsonl_to_timed_chunks lines t)

abbrev pub is_json : {V : Type 0} → JsonAt V → Option Text → Bool
is_json json none = true
is_json json (some t) = is_some (json.parse t)

abbrev pub is_jsonl : Json → Option Text → Bool
is_jsonl lines none = true
is_jsonl lines (some t) = is_some (jsonl_to_timed_chunks lines t)

-- What stands in the files of the slots, each with its text or its bytes at a key.
pub record Formats : Type 1 where
  pub lines : Json
  pub json_request : JsonAt (CachedRequest lines.Value)
  pub json_meta : JsonAt CachedResponseMeta

module _ (formats : Formats) where
  abbrev pub contents :
      (Slot → Text → Option Text) → (Slot → Text → Option (List ℕ)) → Contents formats.lines.Value
  contents f b = record {
    request = λ l. parsed formats.json_request (f request l);
    meta = λ l. parsed formats.json_meta (f meta l);
    body = λ l. f body l;
    binary = λ l. b binary l;
    chunks = λ l. chunks_in formats.lines (f chunks l);
  }

  -- The files that hold JSON can be parsed.
  pub record IsReadable (f : Slot → Text → Option Text) : Type 0 where
    pub requests : (l : Text) → is_json formats.json_request (f request l) ≡ true
    pub metas : (l : Text) → is_json formats.json_meta (f meta l) ≡ true
    pub jsonls : (l : Text) → is_jsonl formats.lines (f chunks l) ≡ true
