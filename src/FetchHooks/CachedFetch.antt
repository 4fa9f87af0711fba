-- ===== src/FetchHooks/CachedFetch.antt =====
-- packages/fetch-hooks/src/index.ts: the fetch function that records and replays, and its installation.
pub mod Twice
pub mod Laws
use effect_native.Prelude.{
  ℕ, ◌+◌, Bool, true, false, ◌&&◌, ◌||◌, Option, none, some, List, [], ◌∷◌, ◌++◌, map, Text, codes,
  includes, if◌then◌else◌,
}
use effect_native.FetchHooks.Io.{Action, continue, ◌>>=◌, ◌>>◌, return}
use effect_native.FetchHooks.FlatFiles.{or_throw}
use effect_native.FetchHooks.Headers.{headers_to_record, put, is_production, is_cache_enabled}
use effect_native.FetchHooks.Host.{Host, Response, Body, text, LogCall, log_write, log_read}
use effect_native.FetchHooks.Cache.Store.{Storage, apply_hook, store_request, store_response}
use effect_native.FetchHooks.Cache.Load.{
  ChunkHook, AfterHook, non_empty, get_cached_response, get_cache_key_from_url,
}
use effect_native.FetchHooks.Types.{Headers, HashableRequest, StorableResponse}

-- The values that a form may hold.
pub data FormEntry : Type 0 where
  string : Text → FormEntry
  -- a file, by its name
  file : Text → FormEntry

-- A body that is given to fetch. The bytes of a view are those of its part of the buffer.
pub data BodyInit : Type 0 where
  string : Text → BodyInit
  url_search_params : Text → BodyInit
  blob : Text → BodyInit
  form_data : List (Text × FormEntry) → BodyInit
  array_buffer : List ℕ → BodyInit
  view : List ℕ → BodyInit
  -- the chunks that a reader gives, of which one may be undefined
  readable_stream : List (Option (List ℕ)) → BodyInit
  other : BodyInit

pub data HeadersInit : Type 0 where
  headers : Headers → HeadersInit
  -- pairs, or a record
  entries : Headers → HeadersInit

pub record RequestInit : Type 0 where
  pub method : Option Text
  pub headers : Option HeadersInit
  pub body : Option BodyInit

-- What fetch is called with: a string, a URL by its `href`, or a request.
pub data Input : Type 0 where
  string : Text → Input
  url : Text → Input
  request : Text → Text → Headers → Option BodyInit → Input

pub record FetchInit : Type 0 where
  pub input : Input
  pub init : Option RequestInit

abbrev pub entry_text : FormEntry → Text
entry_text (string t) = t
entry_text (file name) = name

-- `join("&")`
unfoldable pub join_pairs : List Text → Text
join_pairs [] = []
join_pairs (p ∷ []) = p
join_pairs (p ∷ q ∷ ps) = p ++ (codes "&" ++ join_pairs (q ∷ ps))

-- The chunks of a stream in one array.
unfoldable pub combined : List (Option (List ℕ)) → List ℕ
combined [] = []
combined (none ∷ chunks) = combined chunks
combined (some chunk ∷ chunks) = chunk ++ combined chunks

-- Names and values of the platform: the decoder of UTF-8 and the encoding of a part of a URL.
pub record Platform : Type 0 where
  pub decode : List ℕ → Text
  pub encode_uri_component : Text → Text
  pub env : Text → Option Text
  pub argv : List Text

abbrev pub get_url_from_input : Input → Text
get_url_from_input (string t) = t
get_url_from_input (url href) = href
get_url_from_input (request u method h body) = u

-- The entries of pairs or of a record are written to an object in their order.
abbrev pub normalize_headers_init : Option HeadersInit → Headers
unfolding headers_to_record
normalize_headers_init none = []
normalize_headers_init (some (headers h)) = headers_to_record [] h
normalize_headers_init (some (entries h)) = headers_to_record [] h

abbrev pub method_of : Input → Option Text
method_of (request u method h body) = some method
method_of _ = none

abbrev pub headers_of : Input → Option HeadersInit
headers_of (request u method h body) = some (headers h)
headers_of _ = none

abbrev pub body_of : Input → Option BodyInit
body_of (request u method h body) = body
body_of _ = none

-- `x ?? y`
abbrev pub or_else {ℓ} : {A : Type ℓ} → Option A → Option A → Option A
or_else none o = o
or_else (some a) o = some a

abbrev pub or_default {ℓ} : {A : Type ℓ} → Option A → A → A
or_default none a = a
or_default (some a) b = a

abbrev pub init_field {ℓ} : {A : Type ℓ} → (RequestInit → Option A) → Option RequestInit → Option A
init_field f none = none
init_field f (some init) = f init

module _ (platform : Platform) where
  unfoldable pub form_pair : Text × FormEntry → Text
  form_pair (key, value) =
      platform.encode_uri_component key
      ++ (codes "=" ++ platform.encode_uri_component (entry_text value))

  -- The empty string is no body; what the function does not know neither.
  unfoldable pub extract_body_init : BodyInit → Option Text
  unfolding form_pair join_pairs combined
  extract_body_init (string t) = non_empty (some t)
  extract_body_init (url_search_params t) = some t
  extract_body_init (blob t) = some t
  extract_body_init (form_data pairs) = some (join_pairs (map form_pair pairs))
  extract_body_init (array_buffer bytes) = some (platform.decode bytes)
  extract_body_init (view bytes) = some (platform.decode bytes)
  extract_body_init (readable_stream chunks) = some (platform.decode (combined chunks))
  extract_body_init other = none

  abbrev pub extracted : Option BodyInit → Option Text
  unfolding extract_body_init
  extracted none = none
  extracted (some b) = extract_body_init b

  -- The request as the handler reads it from its arguments.
  unfoldable pub hashable_request : FetchInit → HashableRequest
  unfolding extracted normalize_headers_init
  hashable_request call = record {
    url = get_url_from_input call.input;
    method =
        or_default (or_else (init_field (λ i. i.method) call.init) (method_of call.input))
          (codes "GET");
    headers =
        normalize_headers_init
          (or_else (init_field (λ i. i.headers) call.init) (headers_of call.input));
    body = extracted (or_else (body_of call.input) (init_field (λ i. i.body) call.init));
  }

-- The requests that are never cached.
unfoldable pub is_local : Text → Bool
unfolding includes
is_local u = includes u (codes "localhost") || includes u (codes "127.0.0.1")

-- CacheOptions but for the storage, and for the two fields that are never read. A missing `beforeHash` or
-- `transformCacheKey` is the identity.
pub record CacheOptions (W : Type 0) : Type 0 where
  pub replay_only : Option Bool
  pub internal_fetch : Option (FetchInit → Action W Response)
  pub before_hash : HashableRequest → Action W HashableRequest
  pub before_store_request : Option (HashableRequest → Action W HashableRequest)
  pub before_store_response : Option (StorableResponse → Action W StorableResponse)
  pub after_load_response : Option (StorableResponse → Action W StorableResponse)
  pub transform_sse_chunk : ChunkHook
  pub transform_cache_key : Text → HashableRequest → Text

module _ {W : Type 0} (host : Host W) where
  abbrev pub before_store :
      Option (HashableRequest → Action W HashableRequest)
      → HashableRequest
      → Action W HashableRequest
  before_store none r = return r
  before_store (some f) r = f r

  abbrev pub is_given {ℓ} : {A : Type ℓ} → Option A → Bool
  is_given none = false
  is_given (some a) = true

  abbrev pub plain_response : ℕ → Text → Response
  plain_response status message = record {
    status = status;
    status_text = [];
    headers = host.make_headers [];
    body = text message;
  }

  module _ (platform : Platform) (replay_only_default : Bool) (options : CacheOptions W)
      (storage : Storage host) (base_fetch : FetchInit → Action W Response) where
    -- A miss: what is left once the cache has been asked.
    unfoldable pub fetch_and_store :
        FetchInit → HashableRequest → HashableRequest → Text → Action W Response
    unfolding store_request store_response
    fetch_and_store call r hashed cache_key = do
      to_store ← before_store options.before_store_request r
      stored ←
          store_request host to_store (some cache_key) (is_given options.before_store_request)
            storage (some hashed)
      response ← base_fetch call
      store_response host cache_key response options.before_store_response storage (some hashed)

    unfoldable pub recorded_fetch : FetchInit → HashableRequest → Action W Response
    unfolding fetch_and_store get_cached_response
    recorded_fetch call r = do
      hashed ← options.before_hash r
      hash ← or_throw (host.hash_request hashed)
      let cache_key = options.transform_cache_key hash hashed
      cached ←
          get_cached_response host cache_key options.after_load_response options.transform_sse_chunk
            storage
      elim cached [
        | some response ↦ return response
        | none ↦
            if or_default options.replay_only replay_only_default
            then return (plain_response 503 (codes "Cache miss in replay-only mode"))
            else fetch_and_store call r hashed cache_key
      ]

    -- The URL names an entry of the cache.
    unfoldable pub fetch_entry : Text → Action W Response
    unfolding get_cached_response
    fetch_entry cache_key = do
      cached ←
          get_cached_response host cache_key options.after_load_response options.transform_sse_chunk
            storage
      elim cached [
        | some response ↦ return response
        | none ↦ return (plain_response 404 (codes "Cache entry not found"))
      ]

    unfoldable pub cached_fetch : FetchInit → Action W Response
    unfolding is_production is_local get_cache_key_from_url fetch_entry recorded_fetch
        hashable_request
    cached_fetch call =
        if is_production platform.env
        then base_fetch call
        else if is_local (get_url_from_input call.input)
        then base_fetch call
        else elim (non_empty (get_cache_key_from_url (get_url_from_input call.input))) [
          | some cache_key ↦ fetch_entry cache_key
          | none ↦ recorded_fetch call (hashable_request platform call)
        ]

  -- The call of fetch that asks the log server.
  unfoldable pub log_request : LogCall host.lines.Value → FetchInit
  log_request (log_write cache_id entry) = record {
    input = string (codes "http://localhost:1090/cache");
    init = some (record {
      method = some (codes "POST");
      headers = some (entries ((codes "Content-Type", codes "application/json") ∷ []));
      body = some (BodyInit.string (host.json_log cache_id entry));
    });
  }
  log_request (log_read cache_id) = record {
    input = string (codes "http://localhost:1090/cache/" ++ cache_id);
    init = none;
  }

  -- `setInternalFetchForCache`
  abbrev pub set_internal_fetch : (FetchInit → Action W Response) → Host W
  set_internal_fetch fetch = record host { internal_fetch = λ c. fetch (log_request c) }

-- `createCachedFetch`: the function that it returns, as long as no other one is created, which would set
-- the fetch for the log server anew.
unfoldable pub create_cached_fetch :
    {W : Type 0} (host : Host W)
    → Platform
    → Bool
    → CacheOptions W
    → Storage host
    → (FetchInit → Action W Response)
    → FetchInit
    → Action W Response
unfolding cached_fetch
create_cached_fetch host platform replay_only_default options storage base_fetch call =
    cached_fetch (set_internal_fetch host (or_default options.internal_fetch base_fetch)) platform
      replay_only_default options storage base_fetch call

-- The fetch functions that can stand in `globalThis.fetch`: the platform's, named by a number, or one
-- that `createCachedFetch` made from another.
pub data Fetch : Type 0 where
  native : ℕ → Fetch
  cached : Fetch → Fetch

-- `globalThis.fetch` and `originalFetch`
pub record Globals : Type 0 where
  pub fetch : Fetch
  pub original_fetch : Option Fetch

unfoldable pub enable_dev_fetch_cache : Platform → Globals → Globals
unfolding is_production is_cache_enabled
enable_dev_fetch_cache platform g =
    if is_production platform.env
    then g
    else if is_cache_enabled platform.env platform.argv
    then elim g.original_fetch [
      | some f ↦ g
      | none ↦ record { fetch = cached g.fetch; original_fetch = some g.fetch }
    ]
    else g

unfoldable pub disable_dev_fetch_cache : Globals → Globals
disable_dev_fetch_cache g = elim g.original_fetch [
  | none ↦ g
  | some f ↦ record { fetch = f; original_fetch = none }
]

unfoldable pub is_dev_fetch_cache_enabled : Globals → Bool
is_dev_fetch_cache_enabled g = elim g.original_fetch [ none ↦ false | some f ↦ true ]
