-- ===== src/FetchHooks/Cache/Store.antt =====
-- `storeRequest` and `storeResponse` of packages/fetch-hooks/src/cache-manager.ts.
use effect_native.Prelude.{
  ℕ, Bool, true, false, Option, none, some, List, [], ◌∷◌, ◌++◌, Text, codes, length, if◌then◌else◌,
}
use effect_native.Prelude.Int.{ℤ, pos, ◌-ℤ◌}
use effect_native.FetchHooks.Io.{Action, ◌>>=◌, ◌>>◌, return}
use effect_native.FetchHooks.FlatFiles.{or_throw}
use effect_native.FetchHooks.Sse.{TimedChunk, is_sse_response}
use effect_native.FetchHooks.Jsonl.{timed_chunks_to_jsonl}
use effect_native.FetchHooks.Jsonl.Replay.{record_stream_with_timing}
use effect_native.FetchHooks.Headers.{get, get_storable_headers, headers_to_record}
use effect_native.FetchHooks.DataUrls.{is_binary_content_type, extract_data_urls, write_binary_file}
use effect_native.FetchHooks.Host.{
  Host, Response, Body, null, buffer, text, request, meta, sse, response,
}
use effect_native.FetchHooks.Cache.Legacy.{try_dev_fs_logs_write, ensure_cache_dir, write_json_file}
use effect_native.FetchHooks.Types
use effect_native.FetchHooks.Types.{
  Headers, HashableRequest, CacheKey, CachedRequestBody, CachedRequest, CachedResponseMeta,
  BinaryPart, StorableResponse, CacheStorage,
}

-- `x ?? ""`
abbrev pub or_empty : Option Text → Text
or_empty none = []
or_empty (some t) = t

abbrev pub is_null : Body → Bool
is_null null = true
is_null _ = false

module _ {W : Type 0} (host : Host W) where
  abbrev pub Storage : Type 0
  Storage = Option (CacheStorage W host.lines.Value)

  unfoldable pub parse_request_body : Option Text → Option (CachedRequestBody host.lines.Value)
  parse_request_body none = none
  parse_request_body (some body) = elim (host.lines.parse body) [
    | some value ↦ some (Types.json value)
    | none ↦ some (Types.text body)
  ]

  unfoldable pub cached_request : HashableRequest → Bool → CachedRequest host.lines.Value
  unfolding parse_request_body get_storable_headers
  cached_request params skip_header_filtering = record {
    url = params.url;
    method = params.method;
    headers =
        if skip_header_filtering
        then params.headers
        else get_storable_headers host.to_lower_case params.headers;
    body = parse_request_body params.body;
  }

  abbrev pub save_request :
      Storage → CacheKey → CachedRequest host.lines.Value → Action W (Unit {0})
  save_request (some s) key r = s.requests.set key r
  save_request none (cache_key, hashable) r = do
    cache_dir ← ensure_cache_dir host cache_key
    write_json_file host host.json_request (host.fs.join (cache_dir ∷ codes "request.json" ∷ [])) r

  abbrev pub provided_or_hash : Option Text → HashableRequest → Action W Text
  provided_or_hash none params = or_throw (host.hash_request params)
  provided_or_hash (some key) params = return key

  unfoldable pub store_request :
      HashableRequest → Option Text → Bool → Storage → Option HashableRequest → Action W Text
  unfolding cached_request try_dev_fs_logs_write
  store_request params provided_cache_key skip_header_filtering storage hashable_request =
      let r = cached_request params skip_header_filtering in
      do
        cache_key ← provided_or_hash provided_cache_key params
        save_request storage (cache_key, hashable_request) r
        logged ← try_dev_fs_logs_write host (cache_key ++ codes "/request") (request r)
        return cache_key

  -- The metadata before the body is read.
  abbrev pub response_meta : Response → Headers → ℤ → Text → CachedResponseMeta
  response_meta r headers ttfb_ms cached_at = record {
    status = r.status;
    status_text = r.status_text;
    headers = headers;
    ttfb_ms = ttfb_ms;
    total_ms = pos 0;
    is_sse = is_sse_response (get r.headers (codes "content-type"));
    is_binary = is_binary_content_type (or_empty (get headers (codes "content-type")));
    cached_at = cached_at;
    binary_part = none;
  }

  abbrev pub save_meta : Storage → CacheKey → CachedResponseMeta → Action W (Unit {0})
  save_meta (some s) key m = s.response_meta.set key m
  save_meta none (cache_key, hashable) m = do
    cache_dir ← ensure_cache_dir host cache_key
    write_json_file host host.json_meta (host.fs.join (cache_dir ∷ codes "response.meta.json" ∷ []))
        m

  abbrev pub save_binary : Storage → CacheKey → CachedResponseMeta → List ℕ → Action W (Unit {0})
  save_binary (some s) key m bytes = do s.response_meta.set key m; s.binary_body.set key bytes
  save_binary none (cache_key, hashable) m bytes = do
    cache_dir ← ensure_cache_dir host cache_key
    write_binary_file host.fs host.from_base64 host.to_base64 cache_dir
        (host.fs.join (cache_dir ∷ codes "response.bin" ∷ [])) bytes
    write_json_file host host.json_meta (host.fs.join (cache_dir ∷ codes "response.meta.json" ∷ []))
        m

  abbrev pub save_chunks :
      Storage → CacheKey → CachedResponseMeta → List TimedChunk → Action W (Unit {0})
  save_chunks (some s) key m chunks = do s.response_meta.set key m; s.sse_chunks.set key chunks
  save_chunks none (cache_key, hashable) m chunks = do
    cache_dir ← ensure_cache_dir host cache_key
    (content, files) ←
        extract_data_urls host.fs host.from_base64 host.to_base64
          (timed_chunks_to_jsonl host.lines chunks)
          (host.fs.join (cache_dir ∷ codes "response.jsonl.assets" ∷ []))
    host.fs.write_text (host.fs.join (cache_dir ∷ codes "response.jsonl" ∷ [])) content
    write_json_file host host.json_meta (host.fs.join (cache_dir ∷ codes "response.meta.json" ∷ []))
        m

  abbrev pub save_text : Storage → CacheKey → StorableResponse → Action W (Unit {0})
  save_text (some s) key r = do
    s.response_meta.set key r.meta
    s.response_body.set key (or_empty r.body)
  save_text none (cache_key, hashable) r = do
    cache_dir ← ensure_cache_dir host cache_key
    (content, files) ←
        extract_data_urls host.fs host.from_base64 host.to_base64 (or_empty r.body)
          (host.fs.join (cache_dir ∷ codes "response.json.assets" ∷ []))
    write_json_file host host.json_cached (host.fs.join (cache_dir ∷ codes "response.json" ∷ []))
        (content, r.meta)

  abbrev pub with_total : CachedResponseMeta → ℤ → CachedResponseMeta
  with_total m total_ms = record m { total_ms = total_ms }

  abbrev pub apply_hook :
      Option (StorableResponse → Action W StorableResponse)
      → StorableResponse
      → Action W StorableResponse
  apply_hook none r = return r
  apply_hook (some f) r = f r

  unfoldable pub store_empty :
      CacheKey → Response → CachedResponseMeta → ℤ → Storage → Action W Response
  unfolding try_dev_fs_logs_write
  store_empty key r m start storage = do
    now ← host.clock
    save_meta storage key (with_total m (now -ℤ start))
    logged ←
        try_dev_fs_logs_write host (key.0 ++ codes "/meta") (meta (with_total m (now -ℤ start)))
    return (record r { body = null })

  unfoldable pub store_binary :
      CacheKey → Response → CachedResponseMeta → ℤ → Storage → Action W Response
  unfolding try_dev_fs_logs_write
  store_binary key r m start storage = do
    bytes ← host.array_buffer r
    now ← host.clock
    save_binary storage key
        (record (with_total m (now -ℤ start)) {
          binary_part = some (record {
            content_type = or_empty (get m.headers (codes "content-type"));
            size = length bytes;
          });
        })
        bytes
    logged ←
        try_dev_fs_logs_write host (key.0 ++ codes "/meta") (meta (with_total m (now -ℤ start)))
    return (record r { body = buffer bytes })

  -- The stream is read twice: the copy that is recorded, and the copy that is given back.
  unfoldable pub store_sse :
      CacheKey → Response → CachedResponseMeta → ℤ → Storage → Action W Response
  unfolding try_dev_fs_logs_write record_stream_with_timing
  store_sse key r m start storage = do
    last_chunk_time ← host.clock
    reads ← host.read_stream r
    now ← host.clock
    save_chunks storage key (with_total m (now -ℤ start))
        (record_stream_with_timing last_chunk_time reads)
    logged ←
        try_dev_fs_logs_write host (key.0 ++ codes "/meta") (meta (with_total m (now -ℤ start)))
    logged_sse ←
        try_dev_fs_logs_write host (key.0 ++ codes "/sse")
          (sse (record_stream_with_timing last_chunk_time reads))
    return r

  unfoldable pub store_text :
      CacheKey
      → Response
      → CachedResponseMeta
      → ℤ
      → Option (StorableResponse → Action W StorableResponse)
      → Storage
      → Action W Response
  unfolding try_dev_fs_logs_write
  store_text key r m start before_store storage = do
    body ← host.read_text r
    now ← host.clock
    transformed ←
        apply_hook before_store (record { body = some body; meta = with_total m (now -ℤ start) })
    save_text storage key transformed
    logged ← try_dev_fs_logs_write host (key.0 ++ codes "/response") (response transformed)
    return (record r { body = text body })

  -- The branch of a response is chosen by its body and the two tests on its headers.
  unfoldable pub store_kind :
      CacheKey
      → Response
      → CachedResponseMeta
      → ℤ
      → Option (StorableResponse → Action W StorableResponse)
      → Storage
      → Action W Response
  unfolding store_empty store_binary store_sse store_text
  store_kind key r m start before_store storage =
      if is_null r.body
      then store_empty key r m start storage
      else if m.is_binary
      then store_binary key r m start storage
      else if m.is_sse
      then store_sse key r m start storage
      else store_text key r m start before_store storage

  unfoldable pub store_response :
      Text
      → Response
      → Option (StorableResponse → Action W StorableResponse)
      → Storage
      → Option HashableRequest
      → Action W Response
  unfolding store_kind headers_to_record is_sse_response is_binary_content_type
  store_response cache_key r before_store storage hashable_request = do
    start ← host.clock
    first ← host.clock
    cached_at ← host.iso_date
    store_kind (cache_key, hashable_request) r
        (response_meta r (headers_to_record [] r.headers) (first -ℤ start) cached_at) start
        before_store storage
