-- ===== src/FetchHooks/Cache/Recorded.antt =====
-- What `storeResponse` leaves in a storage.
use effect_native.Prelude.{
  ℕ, ◌≡◌, refl, ap, ◌∙◌, sym, Bool, Bool-cases, inl, inr, true, false, Option, none, some, List, [],
  Text, text_eq_refl, codes, ◌++◌, length,
}
use effect_native.Prelude.Int.{ℤ, ◌-ℤ◌}
use effect_native.FetchHooks.Io.{Action}
use effect_native.FetchHooks.Sse.{TimedChunk, is_sse_response}
use effect_native.FetchHooks.DataUrls.{is_binary_content_type}
use effect_native.FetchHooks.Jsonl.Replay.{Read, record_stream_with_timing}
use effect_native.FetchHooks.Headers.{get, headers_to_record}
use effect_native.FetchHooks.Implements.{Contents, Quietly, Implements, update}
use effect_native.FetchHooks.Host.{Host, Response, buffer, text, meta, sse, response}
use effect_native.FetchHooks.Cache.Quiet.{IsQuiet, log_Quietly}
use effect_native.FetchHooks.Cache.Store.{
  store_binary, store_sse, store_text, store_kind, store_response, response_meta, with_total,
  is_null, or_empty,
}
use effect_native.FetchHooks.Types.{CacheStorage, CacheKey, CachedResponseMeta, HashableRequest}

-- The body of a response, as it is read by each of the three methods.
pub record Payload : Type 0 where
  pub bytes : List ℕ
  pub words : Text
  pub reads : List Read

abbrev pub is_binary_response : Response → Bool
is_binary_response r =
    is_binary_content_type (or_empty (get (headers_to_record [] r.headers) (codes "content-type")))

abbrev pub is_stream_response : Response → Bool
is_stream_response r = is_sse_response (get r.headers (codes "content-type"))

module _ {W : Type 0} (host : Host W) (valid : W → Type 0)
    (view : W → Contents host.lines.Value) where
  -- The three ways to read the body give the payload and leave the cache alone.
  pub record IsRead (r : Response) (p : Payload) : Type 0 where
    pub bytes : (w : W) → valid w → Quietly valid view (host.array_buffer r) w p.bytes
    pub words : (w : W) → valid w → Quietly valid view (host.read_text r) w p.words
    pub reads : (w : W) → valid w → Quietly valid view (host.read_stream r) w p.reads

-- Metadata of a response.
abbrev pub IsMeta : CachedResponseMeta → Response → Type 0
IsMeta m r =
    (m.status ≡ r.status)
    × (m.status_text ≡ r.status_text)
    × (m.headers ≡ headers_to_record [] r.headers)
    × (m.is_binary
        ≡ is_binary_content_type
            (or_empty (get (headers_to_record [] r.headers) (codes "content-type"))))
    × (m.is_sse ≡ is_sse_response (get r.headers (codes "content-type")))

updated_self : {A : Type 0} (f : Text → A) (k : Text) (v : A) → update f k v k ≡ v
updated_self f k v = rw (text_eq_refl k)

-- The response that `storeResponse` gives back.
abbrev pub given_back : Bool → Bool → Response → Payload → Response
given_back true is_sse r p = record r { body = buffer p.bytes }
given_back false true r p = r
given_back false false r p = record r { body = text p.words }

module _ {Value : Type 0} (stored : List TimedChunk → List TimedChunk) where
  -- An entry holds the response's body in the store of its kind.
  abbrev pub Holds : Bool → Bool → Contents Value → Text → Payload → Type 0
  Holds true is_sse c k p = c.binary k ≡ some p.bytes
  Holds false true c k p = (t : ℤ) × (c.chunks k ≡ stored (record_stream_with_timing t p.reads))
  Holds false false c k p = c.body k ≡ some p.words

  along_body :
      (c : Contents Value) (k : Text) (p : Payload) (x x' b b' : Bool)
      → x ≡ b
      → x' ≡ b'
      → Holds b b' c k p
      → Holds x x' c k p
  along_body c k p x x' b b' h h' d = coe 0 1 (i. Holds (sym h i) (sym h' i) c k p) d

  -- An entry is the record of a response.
  abbrev pub IsRecord : Contents Value → Text → Response → Payload → Type 0
  IsRecord c k r p =
      (m : CachedResponseMeta) × (c.meta k ≡ some m) × IsMeta m r × Holds m.is_binary m.is_sse c k p

module _ {W : Type 0} (host : Host W) (s : CacheStorage W host.lines.Value) (plain : Text → Bool)
    (valid : W → Type 0) (view : W → Contents host.lines.Value)
    (stored : List TimedChunk → List TimedChunk) (impl : Implements s plain valid view stored)
    (quiet : IsQuiet host valid view) where
  -- The action ends with the response `a`, and the entry of the key is a record of `r`.
  abbrev pub Records : Action W Response → W → Response → Text → Response → Payload → Type 0
  Records act w a k r p =
      (w' : W) × (act w ≡ (some a, w')) × valid w' × IsRecord stored (view w') k r p

  store_binary_lem :
      (k : CacheKey) (r : Response) (m : CachedResponseMeta) (start : ℤ) (p : Payload) (w : W)
      → plain k.0 ≡ true
      → valid w
      → IsMeta m r
      → m.is_binary ≡ true
      → ((w : W) → valid w → Quietly valid view (host.array_buffer r) w p.bytes)
      → Records
          (store_binary host k r m start (some s))
          w
          (record r { body = buffer p.bytes })
          k.0
          r
          p
  unfolding store_binary
  store_binary_lem k r m start p w h v im b read =
      let (w1, e1, v1, h1) = read w v in
      let (t, q) = quiet.clock w1 v1 in
      let (w2, e2, v2, h2) = q in
      let m' : CachedResponseMeta = record (with_total host m (t -ℤ start)) {
        binary_part = some (record {
          content_type = or_empty (get m.headers (codes "content-type"));
          size = length p.bytes;
        });
      } in
      let (w3, e3, v3, h3) = impl.set_meta k m' w2 h v2 in
      let (w4, e4, v4, h4) = impl.set_binary k p.bytes w3 h v3 in
      let (l, g) =
        log_Quietly host valid view quiet (k.0 ++ codes "/meta")
          (meta (with_total host m (t -ℤ start))) w4 v4 in
      let (w5, e5, v5, h5) = g in
      (
        w5,
        rw (e1, e2, e3, e4, e5),
        v5,
        (
          m',
          ap (λ c. c.meta k.0) (h5 ∙ h4)
              ∙ ap (λ c. c.meta k.0) h3
              ∙ updated_self (view w2).meta k.0 (some m'),
          im,
          along_body stored _ k.0 p m.is_binary m.is_sse true m.is_sse b refl
              (ap (λ c. c.binary k.0) (h5 ∙ h4) ∙ updated_self (view w3).binary k.0 (some p.bytes)),
        ),
      )

  store_sse_lem :
      (k : CacheKey) (r : Response) (m : CachedResponseMeta) (start : ℤ) (p : Payload) (w : W)
      → plain k.0 ≡ true
      → valid w
      → IsMeta m r
      → m.is_binary ≡ false
      → m.is_sse ≡ true
      → ((w : W) → valid w → Quietly valid view (host.read_stream r) w p.reads)
      → Records (store_sse host k r m start (some s)) w r k.0 r p
  unfolding store_sse
  store_sse_lem k r m start p w h v im b b' read =
      let (t0, q0) = quiet.clock w v in
      let (w0, e0, v0, h0) = q0 in
      let (w1, e1, v1, h1) = read w0 v0 in
      let (t, q) = quiet.clock w1 v1 in
      let (w2, e2, v2, h2) = q in
      let m' : CachedResponseMeta = with_total host m (t -ℤ start) in
      let chunks : List TimedChunk = record_stream_with_timing t0 p.reads in
      let (w3, e3, v3, h3) = impl.set_meta k m' w2 h v2 in
      let (w4, e4, v4, h4) = impl.set_chunks k chunks w3 h v3 in
      let (l, g) = log_Quietly host valid view quiet (k.0 ++ codes "/meta") (meta m') w4 v4 in
      let (w5, e5, v5, h5) = g in
      let (l', g') = log_Quietly host valid view quiet (k.0 ++ codes "/sse") (sse chunks) w5 v5 in
      let (w6, e6, v6, h6) = g' in
      (
        w6,
        rw (e0, e1, e2, e3, e4, e5, e6),
        v6,
        (
          m',
          ap (λ c. c.meta k.0) (h6 ∙ h5 ∙ h4)
              ∙ ap (λ c. c.meta k.0) h3
              ∙ updated_self (view w2).meta k.0 (some m'),
          im,
          along_body stored _ k.0 p m.is_binary m.is_sse false true b b' (
            t0,
            ap (λ c. c.chunks k.0) (h6 ∙ h5 ∙ h4)
                ∙ updated_self (view w3).chunks k.0 (stored chunks),
          ),
        ),
      )

  store_text_lem :
      (k : CacheKey) (r : Response) (m : CachedResponseMeta) (start : ℤ) (p : Payload) (w : W)
      → plain k.0 ≡ true
      → valid w
      → IsMeta m r
      → m.is_binary ≡ false
      → m.is_sse ≡ false
      → ((w : W) → valid w → Quietly valid view (host.read_text r) w p.words)
      → Records
          (store_text host k r m start none (some s))
          w
          (record r { body = text p.words })
          k.0
          r
          p
  unfolding store_text
  store_text_lem k r m start p w h v im b b' read =
      let (w1, e1, v1, h1) = read w v in
      let (t, q) = quiet.clock w1 v1 in
      let (w2, e2, v2, h2) = q in
      let m' : CachedResponseMeta = with_total host m (t -ℤ start) in
      let (w3, e3, v3, h3) = impl.set_meta k m' w2 h v2 in
      let (w4, e4, v4, h4) = impl.set_body k p.words w3 h v3 in
      let (l, g) =
        log_Quietly host valid view quiet (k.0 ++ codes "/response")
          (response (record { body = some p.words; meta = m' })) w4 v4 in
      let (w5, e5, v5, h5) = g in
      (
        w5,
        rw (e1, e2, e3, e4, e5),
        v5,
        (
          m',
          ap (λ c. c.meta k.0) (h5 ∙ h4)
              ∙ ap (λ c. c.meta k.0) h3
              ∙ updated_self (view w2).meta k.0 (some m'),
          im,
          along_body stored _ k.0 p m.is_binary m.is_sse false false b b'
              (ap (λ c. c.body k.0) (h5 ∙ h4) ∙ updated_self (view w3).body k.0 (some p.words)),
        ),
      )

  module _ (k : CacheKey) (r : Response) (m : CachedResponseMeta) (start : ℤ) where
    kind_binary :
        is_null r.body ≡ false
        → m.is_binary ≡ true
        → store_kind host k r m start none (some s) ≡ store_binary host k r m start (some s)
    unfolding store_kind
    kind_binary n b = rw (n, b)

    kind_sse :
        is_null r.body ≡ false
        → m.is_binary ≡ false
        → m.is_sse ≡ true
        → store_kind host k r m start none (some s) ≡ store_sse host k r m start (some s)
    unfolding store_kind
    kind_sse n b b' = rw (n, b, b')

    kind_text :
        is_null r.body ≡ false
        → m.is_binary ≡ false
        → m.is_sse ≡ false
        → store_kind host k r m start none (some s) ≡ store_text host k r m start none (some s)
    unfolding store_kind
    kind_text n b b' = rw (n, b, b')

    along_response :
        (act act' : Action W Response) (w : W) (p : Payload) (b b' : Bool)
        → act ≡ act'
        → m.is_binary ≡ b
        → m.is_sse ≡ b'
        → Records act' w (given_back b b' r p) k.0 r p
        → Records act w (given_back m.is_binary m.is_sse r p) k.0 r p
    along_response act act' w p b b' e h h' d =
        coe 0 1 (i. Records (sym e i) w (given_back (sym h i) (sym h' i) r p) k.0 r p) d

  store_kind_lem :
      (k : CacheKey) (r : Response) (m : CachedResponseMeta) (start : ℤ) (p : Payload) (w : W)
      → plain k.0 ≡ true
      → valid w
      → IsMeta m r
      → is_null r.body ≡ false
      → IsRead host valid view r p
      → Records
          (store_kind host k r m start none (some s))
          w
          (given_back m.is_binary m.is_sse r p)
          k.0
          r
          p
  store_kind_lem k r m start p w h v im n read = elim (Bool-cases m.is_binary) [
    | inl b ↦
        along_response k r m start _ _ w p true m.is_sse (kind_binary k r m start n b) b refl
          (store_binary_lem k r m start p w h v im b read.bytes)
    | inr b ↦ elim (Bool-cases m.is_sse) [
      | inl b' ↦
          along_response k r m start _ _ w p false true (kind_sse k r m start n b b') b b'
            (store_sse_lem k r m start p w h v im b b' read.reads)
      | inr b' ↦
          along_response k r m start _ _ w p false false (kind_text k r m start n b b') b b'
            (store_text_lem k r m start p w h v im b b' read.words)
    ]
  ]

  -- In a storage that implements the cache, `storeResponse` ends, gives the response back and leaves a
  -- record of it, whatever its kind, if it has a body.
  pub store_response_lem :
      (cache_key : Text) (hashable : Option HashableRequest) (r : Response) (p : Payload) (w : W)
      → plain cache_key ≡ true
      → valid w
      → is_null r.body ≡ false
      → IsRead host valid view r p
      → Records
          (store_response host cache_key r none (some s) hashable)
          w
          (given_back (is_binary_response r) (is_stream_response r) r p)
          cache_key
          r
          p
  unfolding store_response
  store_response_lem cache_key hashable r p w h v n read =
      let (start, q) = quiet.clock w v in
      let (w1, e1, v1, h1) = q in
      let (first, q') = quiet.clock w1 v1 in
      let (w2, e2, v2, h2) = q' in
      let (date, q'') = quiet.iso_date w2 v2 in
      let (w3, e3, v3, h3) = q'' in
      let (w4, e4, v4, d) =
        store_kind_lem (cache_key, hashable) r
          (response_meta host r (headers_to_record [] r.headers) (first -ℤ start) date) start p w3 h
          v3 (refl, refl, refl, refl, refl) n read in
      (w4, rw (e1, e2, e3) e4, v4, d)
