-- ===== src/FetchHooks/FlatFiles.antt =====
-- packages/fetch-hooks/src/flat-file-storage.ts: a storage whose entries are files in a directory that
-- is named by the key.
pub mod Disk
pub mod View
pub mod Reads
pub mod Writes
pub mod Laws
use effect_native.Prelude.{
  ℕ, Bool, true, false, Option, none, some, List, [], ◌∷◌, Text, codes, if◌then◌else◌,
}
use effect_native.FetchHooks.Io.{
  Action, continue, ◌>>=◌, ◌>>◌, return, throw, FileSystem, ensure_dir,
}
use effect_native.FetchHooks.Sse.{TimedChunk}
use effect_native.FetchHooks.Jsonl.{Json, jsonl_to_timed_chunks, timed_chunks_to_jsonl}
use effect_native.FetchHooks.Types.{
  CacheKey, CachedRequest, CachedResponseMeta, Kv, KvStream, CacheStorage,
}

-- `JSON` at one type: the text with an indent of 2, and `none` where `JSON.parse` throws.
pub record JsonAt (V : Type 0) : Type 0 where
  pub stringify : V → Text
  pub parse : Text → Option V

-- A value, or the exception.
abbrev pub or_throw : {W A : Type 0} → Option A → Action W A
or_throw none = throw
or_throw (some a) = return a

module _ {W : Type 0} (fs : FileSystem W) where
  abbrev pub file_path : Text → Text → CacheKey → Text
  file_path base_dir filename (key, request) = fs.join (base_dir ∷ key ∷ filename ∷ [])

  abbrev pub dir_path : Text → CacheKey → Text
  dir_path base_dir (key, request) = fs.join (base_dir ∷ key ∷ [])

  -- `has` of every store.
  unfoldable pub has_file : Text → Text → CacheKey → Action W Bool
  has_file base_dir filename key w = (some (fs.exists (file_path base_dir filename key) w), w)

  -- `get` of every store: `null` without a file, and else what the file is read as.
  abbrev pub get_file : {V : Type 0} → Text → Text → CacheKey → V → Action W V → Action W V
  get_file base_dir filename key missing found w =
      if fs.exists (file_path base_dir filename key) w then found w else (some missing, w)

  -- The path that `set` writes, once its directory is there.
  abbrev pub write_path : Text → Text → CacheKey → Text
  write_path base_dir filename key = fs.join (dir_path base_dir key ∷ filename ∷ [])

  module _ {V : Type 0} (json : JsonAt V) where
    unfoldable pub get_json : Text → Text → CacheKey → Action W (Option V)
    get_json base_dir filename key = get_file base_dir filename key none do
      content ← fs.read_text (file_path base_dir filename key)
      value ← or_throw (json.parse content)
      return (some value)

    unfoldable pub set_json : Text → Text → CacheKey → V → Action W (Unit {0})
    unfolding ensure_dir
    set_json base_dir filename key value = do
      ensure_dir fs (dir_path base_dir key)
      fs.write_text (write_path base_dir filename key) (json.stringify value)

    unfoldable pub create_flat_json_file_kv : Text → Text → Kv W CacheKey V
    create_flat_json_file_kv base_dir filename = record {
      get = get_json base_dir filename;
      set = set_json base_dir filename;
      has = has_file base_dir filename;
    }

  unfoldable pub get_text : Text → Text → CacheKey → Action W (Option Text)
  get_text base_dir filename key =
      get_file base_dir filename key none
        do content ← fs.read_text (file_path base_dir filename key); return (some content)

  unfoldable pub set_text : Text → Text → CacheKey → Text → Action W (Unit {0})
  unfolding ensure_dir
  set_text base_dir filename key value = do
    ensure_dir fs (dir_path base_dir key)
    fs.write_text (write_path base_dir filename key) value

  unfoldable pub create_flat_text_file_kv : Text → Text → Kv W CacheKey Text
  create_flat_text_file_kv base_dir filename = record {
    get = get_text base_dir filename;
    set = set_text base_dir filename;
    has = has_file base_dir filename;
  }

  -- `new Uint8Array(buffer)` copies the bytes.
  unfoldable pub get_binary : Text → Text → CacheKey → Action W (Option (List ℕ))
  get_binary base_dir filename key =
      get_file base_dir filename key none
        do buffer ← fs.read_bytes (file_path base_dir filename key); return (some buffer)

  unfoldable pub set_binary : Text → Text → CacheKey → List ℕ → Action W (Unit {0})
  unfolding ensure_dir
  set_binary base_dir filename key value = do
    ensure_dir fs (dir_path base_dir key)
    fs.write_bytes (write_path base_dir filename key) value

  unfoldable pub create_flat_binary_file_kv : Text → Text → Kv W CacheKey (List ℕ)
  create_flat_binary_file_kv base_dir filename = record {
    get = get_binary base_dir filename;
    set = set_binary base_dir filename;
    has = has_file base_dir filename;
  }

  module _ (lines : Json) where
    unfoldable pub get_jsonl : Text → Text → CacheKey → Action W (List TimedChunk)
    get_jsonl base_dir filename key = get_file base_dir filename key [] do
      content ← fs.read_text (file_path base_dir filename key)
      or_throw (jsonl_to_timed_chunks lines content)

    unfoldable pub set_jsonl : Text → Text → CacheKey → List TimedChunk → Action W (Unit {0})
    unfolding ensure_dir
    set_jsonl base_dir filename key values = do
      ensure_dir fs (dir_path base_dir key)
      fs.write_text (write_path base_dir filename key) (timed_chunks_to_jsonl lines values)

    unfoldable pub create_flat_jsonl_file_kv_stream : Text → Text → KvStream W CacheKey TimedChunk
    create_flat_jsonl_file_kv_stream base_dir filename = record {
      get = get_jsonl base_dir filename;
      set = set_jsonl base_dir filename;
      has = has_file base_dir filename;
    }

  unfoldable pub create_flat_file_storage :
      (lines : Json)
      → JsonAt (CachedRequest lines.Value)
      → JsonAt CachedResponseMeta
      → Text
      → CacheStorage W lines.Value
  unfolding create_flat_json_file_kv create_flat_text_file_kv create_flat_binary_file_kv
      create_flat_jsonl_file_kv_stream
  create_flat_file_storage lines json_request json_meta base_dir = record {
    requests = create_flat_json_file_kv json_request base_dir (codes "request.json");
    response_meta = create_flat_json_file_kv json_meta base_dir (codes "response.meta.json");
    response_body = create_flat_text_file_kv base_dir (codes "response.json");
    binary_body = create_flat_binary_file_kv base_dir (codes "response.bin");
    sse_chunks = create_flat_jsonl_file_kv_stream lines base_dir (codes "response.jsonl");
  }
