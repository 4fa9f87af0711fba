-- ===== src/FetchHooks/Implements.antt =====
-- What packages/fetch-hooks/src/cache-manager.ts relies on of a storage: an abstract cache, and the
-- storages that implement it.
use effect_native.Prelude.{ℕ, ◌≡◌, Bool, true, Option, some, List, Text, text_eq, if◌then◌else◌}
use effect_native.FetchHooks.Io.{Action}
use effect_native.FetchHooks.Sse.{TimedChunk}
use effect_native.FetchHooks.Types.{CacheKey, CachedRequest, CachedResponseMeta, CacheStorage}

-- The entries of a cache by their keys, a key that has no chunks having the empty list of them.
pub record Contents (Value : Type 0) : Type 0 where
  pub request : Text → Option (CachedRequest Value)
  pub meta : Text → Option CachedResponseMeta
  pub body : Text → Option Text
  pub binary : Text → Option (List ℕ)
  pub chunks : Text → List TimedChunk

abbrev pub update {ℓ} : {A : Type ℓ} → (Text → A) → Text → A → Text → A
update f k v l = if text_eq k l then v else f l

-- The action comes to an end with the value `a`, and the world after it is one that the cache can be
-- read from, with the contents `c`.
abbrev pub Ends :
    {W A Value : Type 0}
    → (W → Type 0)
    → (W → Contents Value)
    → Action W A
    → W
    → A
    → Contents Value
    → Type 0
Ends {W} valid view m w a c = (w' : W) × (m w ≡ (some a, w')) × valid w' × (view w' ≡ c)

abbrev pub Writes :
    {W Value : Type 0}
    → (W → Type 0)
    → (W → Contents Value)
    → Action W (Unit {0})
    → W
    → Contents Value
    → Type 0
Writes valid view m w c = Ends valid view m w tt c

-- The action leaves the contents alone.
abbrev pub Quietly :
    {W A Value : Type 0} → (W → Type 0) → (W → Contents Value) → Action W A → W → A → Type 0
Quietly valid view m w a = Ends valid view m w a (view w)

-- At the keys that `plain` admits, and from a world that is `valid`, the storage is the abstract cache
-- `view`. Chunks are kept in a form of the storage's own, `stored`.
pub record Implements {W Value : Type 0} (s : CacheStorage W Value) (plain : Text → Bool)
    (valid : W → Type 0) (view : W → Contents Value) (stored : List TimedChunk → List TimedChunk)
    : Type 0 where
  pub get_request :
      (k : CacheKey) (w : W)
      → plain k.0 ≡ true
      → valid w
      → s.requests.get k w ≡ (some ((view w).request k.0), w)
  pub get_meta :
      (k : CacheKey) (w : W)
      → plain k.0 ≡ true
      → valid w
      → s.response_meta.get k w ≡ (some ((view w).meta k.0), w)
  pub get_body :
      (k : CacheKey) (w : W)
      → plain k.0 ≡ true
      → valid w
      → s.response_body.get k w ≡ (some ((view w).body k.0), w)
  pub get_binary :
      (k : CacheKey) (w : W)
      → plain k.0 ≡ true
      → valid w
      → s.binary_body.get k w ≡ (some ((view w).binary k.0), w)
  pub get_chunks :
      (k : CacheKey) (w : W)
      → plain k.0 ≡ true
      → valid w
      → s.sse_chunks.get k w ≡ (some ((view w).chunks k.0), w)
  pub set_request :
      (k : CacheKey) (v : CachedRequest Value) (w : W)
      → plain k.0 ≡ true
      → valid w
      → Writes valid view
          (s.requests.set k v)
          w
          (record (view w) { request = update (view w).request k.0 (some v) })
  pub set_meta :
      (k : CacheKey) (v : CachedResponseMeta) (w : W)
      → plain k.0 ≡ true
      → valid w
      → Writes valid view
          (s.response_meta.set k v)
          w
          (record (view w) { meta = update (view w).meta k.0 (some v) })
  pub set_body :
      (k : CacheKey) (v : Text) (w : W)
      → plain k.0 ≡ true
      → valid w
      → Writes valid view
          (s.response_body.set k v)
          w
          (record (view w) { body = update (view w).body k.0 (some v) })
  pub set_binary :
      (k : CacheKey) (v : List ℕ) (w : W)
      → plain k.0 ≡ true
      → valid w
      → Writes valid view
          (s.binary_body.set k v)
          w
          (record (view w) { binary = update (view w).binary k.0 (some v) })
  pub set_chunks :
      (k : CacheKey) (v : List TimedChunk) (w : W)
      → plain k.0 ≡ true
      → valid w
      → Writes valid view
          (s.sse_chunks.set k v)
          w
          (record (view w) { chunks = update (view w).chunks k.0 (stored v) })
