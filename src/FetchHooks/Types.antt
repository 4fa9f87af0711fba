-- ===== src/FetchHooks/Types.antt =====
-- packages/fetch-hooks/src/types.ts: requests and responses as they are stored, and the storages.
use effect_native.Prelude.{ℕ, Bool, Option, List, Text}
use effect_native.Prelude.Int.{ℤ}
use effect_native.FetchHooks.Io.{Action}
use effect_native.FetchHooks.Sse.{TimedChunk}

abbrev pub Headers : Type 0
Headers = List (Text × Text)

-- RawCachedRequest has the same fields.
pub record HashableRequest : Type 0 where
  pub url : Text
  pub method : Text
  pub headers : Headers
  pub body : Option Text

abbrev pub CacheKey : Type 0
CacheKey = Text × Option HashableRequest

-- An object with one of the fields `json` and `text`.
pub data CachedRequestBody (Value : Type 0) : Type 0 where
  json : Value → CachedRequestBody Value
  text : Text → CachedRequestBody Value

pub record CachedRequest (Value : Type 0) : Type 0 where
  pub url : Text
  pub method : Text
  pub headers : Headers
  pub body : Option (CachedRequestBody Value)

pub record BinaryPart : Type 0 where
  pub content_type : Text
  pub size : ℕ

-- BinaryResponseMeta has a `binary_part` besides.
pub record CachedResponseMeta : Type 0 where
  pub status : ℕ
  pub status_text : Text
  pub headers : Headers
  pub ttfb_ms : ℤ
  pub total_ms : ℤ
  pub is_sse : Bool
  pub is_binary : Bool
  pub cached_at : Text
  pub binary_part : Option BinaryPart

pub record StorableResponse : Type 0 where
  pub body : Option Text
  pub meta : CachedResponseMeta

-- `null` is `none`. No storage of the package has a `delete`.
pub record Kv (W K V : Type 0) : Type 0 where
  pub get : K → Action W (Option V)
  pub set : K → V → Action W (Unit {0})
  pub has : K → Action W Bool

-- An iterable is the list of what it gives.
pub record KvStream (W K V : Type 0) : Type 0 where
  pub get : K → Action W (List V)
  pub set : K → List V → Action W (Unit {0})
  pub has : K → Action W Bool

pub record CacheStorage (W Value : Type 0) : Type 0 where
  pub requests : Kv W CacheKey (CachedRequest Value)
  pub response_meta : Kv W CacheKey CachedResponseMeta
  pub response_body : Kv W CacheKey Text
  pub binary_body : Kv W CacheKey (List ℕ)
  pub sse_chunks : KvStream W CacheKey TimedChunk
