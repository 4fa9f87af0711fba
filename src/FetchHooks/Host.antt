-- ===== src/FetchHooks/Host.antt =====
-- What packages/fetch-hooks/src/cache-manager.ts is given: the network, the clock, the file system, JSON
-- and the digest, and the responses that it takes and gives.
use effect_native.Prelude.{ℕ, Bool, Option, none, some, List, Text, leb, ◌&&◌}
use effect_native.Prelude.Int.{ℤ}
use effect_native.FetchHooks.Io.{Action, FileSystem}
use effect_native.FetchHooks.Sse.{TimedChunk}
use effect_native.FetchHooks.Jsonl.{Json}
use effect_native.FetchHooks.Jsonl.Replay.{Read}
use effect_native.FetchHooks.Jsonl.Replay
use effect_native.FetchHooks.FlatFiles.{JsonAt}
use effect_native.FetchHooks.Types.{
  Headers, HashableRequest, CachedRequest, CachedResponseMeta, StorableResponse,
}

-- The body of a response: `live` is a stream from the network, named by a number, and `replay` a stream
-- that waits and sends as it says.
pub data Body : Type 0 where
  null : Body
  buffer : List ℕ → Body
  text : Text → Body
  live : ℕ → Body
  replay : List Replay.Action → Body

pub record Response : Type 0 where
  pub status : ℕ
  pub status_text : Text
  pub headers : Headers
  pub body : Body

-- What is written to the log server.
pub data LogEntry (Value : Type 0) : Type 0 where
  request : CachedRequest Value → LogEntry Value
  meta : CachedResponseMeta → LogEntry Value
  sse : List TimedChunk → LogEntry Value
  response : StorableResponse → LogEntry Value

-- The calls to the log server: what is written under a name, or read from it.
pub data LogCall (Value : Type 0) : Type 0 where
  log_write : Text → LogEntry Value → LogCall Value
  log_read : Text → LogCall Value

-- `response.ok`
abbrev pub is_ok : Response → Bool
is_ok r = leb 200 r.status && leb r.status 299

pub record Host (W : Type 0) : Type 1 where
  pub fs : FileSystem W
  pub lines : Json
  pub json_request : JsonAt (CachedRequest lines.Value)
  pub json_meta : JsonAt CachedResponseMeta
  -- `{ body, meta }`
  pub json_cached : JsonAt (Text × CachedResponseMeta)
  pub from_base64 : Text → List ℕ
  pub to_base64 : List ℕ → Text
  pub to_lower_case : Text → Text
  -- The hash of a request; `none` is the exception of `new URL`.
  pub hash_request : HashableRequest → Option Text
  pub cache_dir : Text
  pub clock : Action W ℤ
  pub iso_date : Action W Text
  -- `_internalFetch`, as it is called for the log server.
  pub internal_fetch : LogCall lines.Value → Action W Response
  -- `response.json()`, at the types that an answer of the log server is cast to.
  pub meta_in : Response → Action W (Option CachedResponseMeta)
  pub chunks_in : Response → Action W (Option (List TimedChunk))
  pub response_in : Response → Action W (Option StorableResponse)
  -- `JSON.stringify({ cacheId, data })`
  pub json_log : Text → LogEntry lines.Value → Text
  -- Methods of a response.
  pub array_buffer : Response → Action W (List ℕ)
  pub read_text : Response → Action W Text
  pub read_stream : Response → Action W (List Read)
  -- The entries of `new Headers(record)`.
  pub make_headers : Headers → Headers

-- `.catch(() => a)`
abbrev pub catch : {W A : Type 0} → A → Option A × W → Option A × W
catch a (none, w) = (some a, w)
catch a (some b, w) = (some b, w)
