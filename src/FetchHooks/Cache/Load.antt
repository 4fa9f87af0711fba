-- ===== src/FetchHooks/Cache/Load.antt =====
-- `getCachedResponse` and `getCacheKeyFromUrl` of packages/fetch-hooks/src/cache-manager.ts.
use effect_native.Prelude.{
  ℕ, true, Option, none, some, List, [], ◌∷◌, ◌++◌, Text, codes, starts_with, drop, length,
  if◌then◌else◌,
}
use effect_native.FetchHooks.Io.{Action, ◌>>=◌, return}
use effect_native.FetchHooks.Sse.{TimedChunk}
use effect_native.FetchHooks.Jsonl.{jsonl_to_timed_chunks}
use effect_native.FetchHooks.Jsonl.Replay.{
  replay_stream_with_timing, replay_stream_from_async_iterable,
}
use effect_native.FetchHooks.DataUrls.{restore_data_urls, read_binary_file}
use effect_native.FetchHooks.FlatFiles.{or_throw}
use effect_native.FetchHooks.Host.{Host, Response, Body, null, buffer, text, replay}
use effect_native.FetchHooks.Cache.Legacy.{
  read_logged_meta, read_logged_chunks, read_logged_response, cache_path, read_text_file,
  read_json_file,
}
use effect_native.FetchHooks.Cache.Store.{Storage, apply_hook}
use effect_native.FetchHooks.Types.{CachedResponseMeta, StorableResponse}

-- `transformSSEChunk`, which takes an iterable and gives one.
abbrev pub ChunkHook : Type 0
ChunkHook = Option (List TimedChunk → List TimedChunk)

-- An empty body is no body.
abbrev pub non_empty : Option Text → Option Text
non_empty none = none
non_empty (some []) = none
non_empty (some (c ∷ s)) = some (c ∷ s)

abbrev pub meta_of : Option (Text × CachedResponseMeta) → Option CachedResponseMeta
meta_of none = none
meta_of (some (body, m)) = some m

-- The two ways to replay an array of chunks.
unfoldable pub replay_array : ChunkHook → List TimedChunk → Body
unfolding replay_stream_with_timing replay_stream_from_async_iterable
replay_array none chunks = replay (replay_stream_with_timing 0 chunks)
replay_array (some f) chunks = replay (replay_stream_from_async_iterable true (f chunks))

-- An iterable of the storage is replayed as an iterable also without a hook.
unfoldable pub replay_iterable : ChunkHook → List TimedChunk → Body
unfolding replay_stream_from_async_iterable
replay_iterable none chunks = replay (replay_stream_from_async_iterable true chunks)
replay_iterable (some f) chunks = replay (replay_stream_from_async_iterable true (f chunks))

-- `x ?? undefined` as the body of a response
abbrev pub text_body : Option Text → Body
text_body none = null
text_body (some t) = text t

module _ {W : Type 0} (host : Host W) where
  abbrev pub respond : CachedResponseMeta → Body → Response
  respond m body = record {
    status = m.status;
    status_text = m.status_text;
    headers = host.make_headers m.headers;
    body = body;
  }

  abbrev pub load_meta : Storage host → Text → Action W (Option CachedResponseMeta)
  load_meta (some s) cache_key = s.response_meta.get (cache_key, none)
  load_meta none cache_key = do
    found ←
        read_json_file host host.json_meta (cache_path host cache_key (codes "response.meta.json"))
    elim found [
      | some m ↦ return (some m)
      | none ↦ do
        cached ←
            read_json_file host host.json_cached (cache_path host cache_key (codes "response.json"))
        return (meta_of cached)
    ]

  -- The metadata of the storage, or else that of the log server.
  unfoldable pub find_meta : Storage host → Text → Action W (Option CachedResponseMeta)
  unfolding read_json_file read_logged_meta
  find_meta storage cache_key = do
    found ← load_meta storage cache_key
    elim found [
      | some m ↦ return (some m)
      | none ↦ read_logged_meta host (cache_key ++ codes "/meta")
    ]

  abbrev pub load_binary : Storage host → Text → Action W (Option (List ℕ))
  load_binary (some s) cache_key = s.binary_body.get (cache_key, none)
  load_binary none cache_key =
      read_binary_file host.fs host.from_base64 host.to_base64
        (cache_path host cache_key (codes "response.bin"))

  unfoldable pub reply_binary :
      Storage host → Text → CachedResponseMeta → Action W (Option Response)
  unfolding read_binary_file
  reply_binary storage cache_key m = do
    bytes ← load_binary storage cache_key
    elim bytes [ none ↦ return none | some b ↦ return (some (respond m (buffer b))) ]

  unfoldable pub reply_logged_chunks :
      ChunkHook → Text → CachedResponseMeta → Action W (Option Response)
  unfolding read_logged_chunks replay_array
  reply_logged_chunks transform cache_key m = do
    chunks ← read_logged_chunks host (cache_key ++ codes "/sse")
    elim chunks [
      | none ↦ return none
      | some cs ↦ return (some (respond m (replay_array transform cs)))
    ]

  unfoldable pub reply_chunks :
      ChunkHook → Text → CachedResponseMeta → List TimedChunk → Action W (Option Response)
  unfolding reply_logged_chunks replay_iterable
  reply_chunks transform cache_key m [] = reply_logged_chunks transform cache_key m
  reply_chunks transform cache_key m (c ∷ cs) =
      return (some (respond m (replay_iterable transform (c ∷ cs))))

  unfoldable pub reply_sse :
      Storage host → ChunkHook → Text → CachedResponseMeta → Action W (Option Response)
  unfolding reply_chunks read_text_file restore_data_urls jsonl_to_timed_chunks reply_logged_chunks
      replay_array
  reply_sse (some s) transform cache_key m = do
    chunks ← s.sse_chunks.get (cache_key, none)
    reply_chunks transform cache_key m chunks
  reply_sse none transform cache_key m = do
    content ← read_text_file host (cache_path host cache_key (codes "response.jsonl"))
    elim (non_empty content) [
      | none ↦ reply_logged_chunks transform cache_key m
      | some jsonl ↦ do
        restored ←
            restore_data_urls host.fs host.from_base64 host.to_base64 jsonl
              (cache_path host cache_key (codes "response.jsonl.assets"))
        chunks ← or_throw (jsonl_to_timed_chunks host.lines restored)
        return (some (respond m (replay_array transform chunks)))
    ]

  -- The body, and the metadata that go with it.
  abbrev pub load_text :
      Storage host → Text → CachedResponseMeta → Action W (Option Text × CachedResponseMeta)
  load_text (some s) cache_key m = do body ← s.response_body.get (cache_key, none); return (body, m)
  load_text none cache_key m = do
    cached ←
        read_json_file host host.json_cached (cache_path host cache_key (codes "response.json"))
    elim cached [
      | none ↦ return (none, m)
      | some (body, cached_meta) ↦ do
        restored ←
            restore_data_urls host.fs host.from_base64 host.to_base64 body
              (cache_path host cache_key (codes "response.json.assets"))
        return (some restored, cached_meta)
    ]

  abbrev pub AfterHook : Type 0
  AfterHook = Option (StorableResponse → Action W StorableResponse)

  abbrev pub reply_transformed : AfterHook → StorableResponse → Action W (Option Response)
  reply_transformed after r = do
    transformed ← apply_hook host after r
    return (some (respond transformed.meta (text_body transformed.body)))

  unfoldable pub reply_text :
      Storage host → AfterHook → Text → CachedResponseMeta → Action W (Option Response)
  unfolding read_json_file restore_data_urls read_logged_response
  reply_text storage after cache_key m = do
    (body, cached_meta) ← load_text storage cache_key m
    elim (non_empty body) [
      | some t ↦ reply_transformed after (record { body = some t; meta = cached_meta })
      | none ↦ do
        logged ← read_logged_response host (cache_key ++ codes "/response")
        elim logged [ none ↦ return none | some r ↦ reply_transformed after r ]
    ]

  unfoldable pub reply_kind :
      Storage host → AfterHook → ChunkHook → Text → CachedResponseMeta → Action W (Option Response)
  unfolding reply_binary reply_sse reply_text
  reply_kind storage after transform cache_key m =
      if m.is_binary
      then reply_binary storage cache_key m
      else if m.is_sse
      then reply_sse storage transform cache_key m
      else reply_text storage after cache_key m

  unfoldable pub get_cached_response :
      Text → AfterHook → ChunkHook → Storage host → Action W (Option Response)
  unfolding find_meta reply_kind
  get_cached_response cache_key after transform storage = do
    found ← find_meta storage cache_key
    elim found [ none ↦ return none | some m ↦ reply_kind storage after transform cache_key m ]

-- `cache://` is tried before `devcache://`.
unfoldable pub get_cache_key_from_url : Text → Option Text
unfolding starts_with
get_cache_key_from_url url =
    if starts_with (codes "cache://") url
    then some (drop (length (codes "cache://")) url)
    else if starts_with (codes "devcache://") url
    then some (drop (length (codes "devcache://")) url)
    else none
