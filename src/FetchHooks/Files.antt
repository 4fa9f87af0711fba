-- ===== src/FetchHooks/Files.antt =====
-- packages/fetch-hooks/src/filesystem-storage.ts: the storage of files, which moves the data URLs of a
-- request and of a body to files of their own.
use effect_native.Prelude.{ℕ, none, some, List, [], ◌∷◌, ◌++◌, Text, codes}
use effect_native.FetchHooks.Io.{Action, ◌>>=◌, ◌>>◌, return, FileSystem, ensure_dir}
use effect_native.FetchHooks.Sse.{TimedChunk}
use effect_native.FetchHooks.Jsonl.{Json, timed_chunks_to_jsonl}
use effect_native.FetchHooks.DataUrls.{extract_data_urls, restore_data_urls}
use effect_native.FetchHooks.FlatFiles.{
  JsonAt, or_throw, file_path, dir_path, get_file, has_file, get_json, get_binary, get_jsonl,
}
use effect_native.FetchHooks.Types.{
  CacheKey, CachedRequest, CachedResponseMeta, Kv, KvStream, CacheStorage,
}

module _ {W : Type 0} (fs : FileSystem W) (from_base64 : Text → List ℕ)
    (to_base64 : List ℕ → Text) where
  abbrev pub assets_path : Text → Text → CacheKey → Text
  assets_path base_dir filename (key, request) =
      fs.join (base_dir ∷ key ∷ (filename ++ codes ".assets") ∷ [])

  -- The directory is made first in every `set`, and its path is the answer of `ensureCacheDir`.
  unfoldable pub ensure_cache_dir : Text → CacheKey → Action W Text
  unfolding ensure_dir
  ensure_cache_dir base_dir key = do
    ensure_dir fs (dir_path fs base_dir key)
    return (dir_path fs base_dir key)

  -- A text with its data URLs moved to the files of `filename.assets`.
  unfoldable pub write_extracted : Text → Text → CacheKey → Text → Action W (Unit {0})
  unfolding ensure_cache_dir extract_data_urls
  write_extracted base_dir filename key content = do
    cache_dir ← ensure_cache_dir base_dir key
    (extracted, files) ←
        extract_data_urls fs from_base64 to_base64 content
          (fs.join (cache_dir ∷ (filename ++ codes ".assets") ∷ []))
    fs.write_text (fs.join (cache_dir ∷ filename ∷ [])) extracted

  unfoldable pub read_restored : Text → Text → CacheKey → Action W Text
  unfolding restore_data_urls
  read_restored base_dir filename key = do
    content ← fs.read_text (file_path fs base_dir filename key)
    restore_data_urls fs from_base64 to_base64 content (assets_path base_dir filename key)

  module _ {V : Type 0} (json : JsonAt V) where
    unfoldable pub create_json_file_kv : Text → Text → Kv W CacheKey V
    unfolding ensure_cache_dir get_json has_file
    create_json_file_kv base_dir filename = record {
      get = get_json fs json base_dir filename;
      set = λ key value. do
        cache_dir ← ensure_cache_dir base_dir key
        fs.write_text (fs.join (cache_dir ∷ filename ∷ [])) (json.stringify value);
      has = has_file fs base_dir filename;
    }

    -- At the type of requests.
    unfoldable pub create_request_file_kv : Text → Text → Kv W CacheKey V
    unfolding write_extracted read_restored has_file
    create_request_file_kv base_dir filename = record {
      get = λ key. get_file fs base_dir filename key none do
        content ← read_restored base_dir filename key
        value ← or_throw (json.parse content)
        return (some value);
      set = λ key value. write_extracted base_dir filename key (json.stringify value);
      has = has_file fs base_dir filename;
    }

  unfoldable pub create_text_file_kv : Text → Text → Kv W CacheKey Text
  unfolding write_extracted read_restored has_file
  create_text_file_kv base_dir filename = record {
    get = λ key. get_file fs base_dir filename key none do
      content ← read_restored base_dir filename key
      return (some content);
    set = λ key value. write_extracted base_dir filename key value;
    has = has_file fs base_dir filename;
  }

  unfoldable pub create_binary_file_kv : Text → Text → Kv W CacheKey (List ℕ)
  unfolding ensure_cache_dir get_binary has_file
  create_binary_file_kv base_dir filename = record {
    get = get_binary fs base_dir filename;
    set = λ key value. do
      cache_dir ← ensure_cache_dir base_dir key
      fs.write_bytes (fs.join (cache_dir ∷ filename ∷ [])) value;
    has = has_file fs base_dir filename;
  }

  module _ (lines : Json) where
    unfoldable pub create_jsonl_file_kv_stream : Text → Text → KvStream W CacheKey TimedChunk
    unfolding ensure_cache_dir get_jsonl has_file
    create_jsonl_file_kv_stream base_dir filename = record {
      get = get_jsonl fs lines base_dir filename;
      set = λ key values. do
        cache_dir ← ensure_cache_dir base_dir key
        fs.write_text (fs.join (cache_dir ∷ filename ∷ [])) (timed_chunks_to_jsonl lines values);
      has = has_file fs base_dir filename;
    }

  unfoldable pub create_filesystem_storage :
      (lines : Json)
      → JsonAt (CachedRequest lines.Value)
      → JsonAt CachedResponseMeta
      → Text
      → CacheStorage W lines.Value
  unfolding create_request_file_kv create_json_file_kv create_text_file_kv create_binary_file_kv
      create_jsonl_file_kv_stream
  create_filesystem_storage lines json_request json_meta base_dir = record {
    requests = create_request_file_kv json_request base_dir (codes "request.json");
    response_meta = create_json_file_kv json_meta base_dir (codes "response.meta.json");
    response_body = create_text_file_kv base_dir (codes "response.json");
    binary_body = create_binary_file_kv base_dir (codes "response.bin");
    sse_chunks = create_jsonl_file_kv_stream lines base_dir (codes "response.jsonl");
  }
