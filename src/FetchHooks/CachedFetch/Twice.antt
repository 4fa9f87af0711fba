-- ===== src/FetchHooks/CachedFetch/Twice.antt =====
-- The first and the second call of a cached fetch, step by step.
use effect_native.Prelude.{
  ◌≡◌, ◌∙◌, Bool, true, false, Option, none, some, List, [], Text, codes, ◌++◌,
}
use effect_native.FetchHooks.Io.{Action, return}
use effect_native.FetchHooks.Sse.{TimedChunk}
use effect_native.FetchHooks.Headers.{is_production, headers_to_record}
use effect_native.FetchHooks.Implements.{Contents, Quietly, Implements}
use effect_native.FetchHooks.Host.{Host, Response, Body, request}
use effect_native.FetchHooks.Cache.Legacy.{read_logged_meta}
use effect_native.FetchHooks.Cache.Quiet.{IsQuiet, log_Quietly}
use effect_native.FetchHooks.Cache.Store.{is_null, store_request, cached_request}
use effect_native.FetchHooks.Cache.Load.{
  non_empty, find_meta, get_cached_response, get_cache_key_from_url,
}
use effect_native.FetchHooks.Cache.Recorded.{
  Payload, IsRead, IsRecord, Records, given_back, is_binary_response, is_stream_response,
  store_response_lem,
}
use effect_native.FetchHooks.Cache.Replayed.{Replays, IsReplayable, get_cached_response_lem}
use effect_native.FetchHooks.CachedFetch.{
  FetchInit, Platform, CacheOptions, get_url_from_input, hashable_request, is_local,
  fetch_and_store, recorded_fetch, cached_fetch,
}
use effect_native.FetchHooks.Types.{CacheStorage, HashableRequest}

-- Outside of production, a call whose URL is not local and names no entry of the cache.
abbrev pub IsCached : Platform → FetchInit → Type 0
IsCached platform call =
    (is_production platform.env ≡ false)
    × (is_local (get_url_from_input call.input) ≡ false)
    × (non_empty (get_cache_key_from_url (get_url_from_input call.input)) ≡ none)

-- Options that record, with no hook on what is stored or loaded: requests are made hashable by `f`, the
-- key of a hash is `g`, and the log server is asked with `internal`, if that is given.
abbrev pub recording :
    {W : Type 0}
    → Option (FetchInit → Action W Response)
    → (HashableRequest → HashableRequest)
    → (Text → HashableRequest → Text)
    → CacheOptions W
recording internal f g = record {
  replay_only = some false;
  internal_fetch = internal;
  before_hash = λ r. return (f r);
  before_store_request = none;
  before_store_response = none;
  after_load_response = none;
  transform_sse_chunk = none;
  transform_cache_key = g;
}

module _ {W : Type 0} (host : Host W) (s : CacheStorage W host.lines.Value) (plain : Text → Bool)
    (valid : W → Type 0) (view : W → Contents host.lines.Value)
    (stored : List TimedChunk → List TimedChunk) (impl : Implements s plain valid view stored)
    (quiet : IsQuiet host valid view) where
  store_request_lem :
      (q : HashableRequest) (k : Text) (skip : Bool) (hashable : Option HashableRequest) (w : W)
      → plain k ≡ true
      → valid w
      → (w' : W) × (store_request host q (some k) skip (some s) hashable w ≡ (some k, w'))
        × valid w'
  unfolding store_request
  store_request_lem q k skip hashable w h v =
      let (w1, e1, v1, h1) = impl.set_request (k, hashable) (cached_request host q skip) w h v in
      let (l, g) =
        log_Quietly host valid view quiet (k ++ codes "/request")
          (request (cached_request host q skip)) w1 v1 in
      let (w2, e2, v2, h2) = g in (w2, rw (e1, e2), v2)

  miss_lem :
      (k : Text) (w : W)
      → plain k ≡ true
      → valid w
      → (view w).meta k ≡ none
      → Quietly valid view (read_logged_meta host (k ++ codes "/meta")) w none
      → (w' : W) × (get_cached_response host k none none (some s) w ≡ (some none, w')) × valid w'
  unfolding get_cached_response find_meta
  miss_lem k w h v e (w1, e1, v1, h1) = (w1, rw (impl.get_meta (k, none) w h v, e, e1), v1)

  module _ (platform : Platform) (f : HashableRequest → HashableRequest)
      (g : Text → HashableRequest → Text) (default : Bool)
      (internal : Option (FetchInit → Action W Response))
      (base_fetch : FetchInit → Action W Response) (call : FetchInit) (hash : Text)
      (hashed : host.hash_request (f (hashable_request platform call)) ≡ some hash) where
    abbrev key : Text
    key = g hash (f (hashable_request platform call))

    abbrev fetch : Action W Response
    fetch = cached_fetch host platform default (recording internal f g) (some s) base_fetch call

    to_cache :
        (w : W)
        → IsCached platform call
        → fetch w
          ≡ recorded_fetch host platform default
              (recording internal f g)
              (some s)
              base_fetch
              call
              (hashable_request platform call)
              w
    unfolding cached_fetch
    to_cache w (a, b, c) = rw (a, b, c)

    second_call :
        (r : Response) (p : Payload) (w : W)
        → IsCached platform call
        → plain key ≡ true
        → valid w
        → IsRecord stored (view w) key r p
        → IsReplayable stored (is_binary_response r) (is_stream_response r) p
        → (body : Body) × (fetch w ≡ (
          some (record {
            status = r.status;
            status_text = r.status_text;
            headers = host.make_headers (headers_to_record [] r.headers);
            body = body;
          }),
          w,
        ))
          × Replays stored (is_binary_response r) (is_stream_response r) body p
    unfolding recorded_fetch
    second_call r p w c h v d n =
        let (body, e, same) =
          get_cached_response_lem host s plain valid view stored impl key w h v r p d n in
        (body, to_cache w c ∙ rw (hashed, e), same)

    first_call :
        (r : Response) (p : Payload) (w : W)
        → IsCached platform call
        → plain key ≡ true
        → valid w
        → (view w).meta key ≡ none
        → Quietly valid view (read_logged_meta host (key ++ codes "/meta")) w none
        → ((w : W) → valid w → Quietly valid view (base_fetch call) w r)
        → is_null r.body ≡ false
        → IsRead host valid view r p
        → Records host s plain valid view stored impl quiet fetch w
            (given_back (is_binary_response r) (is_stream_response r) r p)
            key
            r
            p
    unfolding recorded_fetch fetch_and_store
    first_call r p w c h v e logged network n read =
        let (w1, e1, v1) = miss_lem key w h v e logged in
        let (w2, e2, v2) =
          store_request_lem (hashable_request platform call) key false
            (some (f (hashable_request platform call))) w1 h v1 in
        let (w3, e3, v3, h3) = network w2 v2 in
        let (w4, e4, v4, d) =
          store_response_lem host s plain valid view stored impl quiet key
            (some (f (hashable_request platform call))) r p w3 h v3 n read in
        (w4, to_cache w c ∙ rw (hashed, e1, e2, e3) e4, v4, d)

    pub fetched_twice :
        (r : Response) (p : Payload) (w : W)
        → IsCached platform call
        → plain key ≡ true
        → valid w
        → (view w).meta key ≡ none
        → Quietly valid view (read_logged_meta host (key ++ codes "/meta")) w none
        → ((w : W) → valid w → Quietly valid view (base_fetch call) w r)
        → is_null r.body ≡ false
        → IsRead host valid view r p
        → IsReplayable stored (is_binary_response r) (is_stream_response r) p
        → (w' : W) × (fetch w
            ≡ (some (given_back (is_binary_response r) (is_stream_response r) r p), w'))
          × ((body : Body) × (fetch w' ≡ (
            some (record {
              status = r.status;
              status_text = r.status_text;
              headers = host.make_headers (headers_to_record [] r.headers);
              body = body;
            }),
            w',
          ))
              × Replays stored (is_binary_response r) (is_stream_response r) body p)
    fetched_twice r p w c h v e logged network n read m =
        let (w', done, v', d) = first_call r p w c h v e logged network n read in
        (w', done, second_call r p w' c h v' d m)
