-- ===== src/FetchHooks/Cache/Replayed.antt =====
-- What `getCachedResponse` gives for the record of a response.
use effect_native.Prelude.{
  ℕ, ◌≡◌, ◌≢◌, refl, ◌∙◌, Bool, true, false, none, some, List, [], ◌∷◌, Text, map, ap,
}
use effect_native.Prelude.Int.{ℤ}
use effect_native.FetchHooks.Sse.{TimedChunk}
use effect_native.FetchHooks.Jsonl.Replay.{
  Read, record_stream_with_timing, replay_stream_from_async_iterable, sent, sent_lem, replays_agree,
}
use effect_native.FetchHooks.Headers.{headers_to_record}
use effect_native.FetchHooks.Implements.{Contents, Implements}
use effect_native.FetchHooks.Host.{Host, Response, Body, buffer, text, replay}
use effect_native.FetchHooks.Cache.Load.{
  respond, reply_binary, reply_sse, reply_text, reply_chunks, reply_kind, find_meta,
  get_cached_response,
}
use effect_native.FetchHooks.Cache.Recorded.{
  Payload, Holds, IsRecord, is_binary_response, is_stream_response,
}
use effect_native.FetchHooks.Types.{CacheStorage, CachedResponseMeta}

replayed_texts :
    (cs : List TimedChunk)
    → sent (replay_stream_from_async_iterable true cs) ≡ map (λ c. c.data_) cs
replayed_texts cs = ap sent (replays_agree cs) ∙ sent_lem 0 cs

module _ (stored : List TimedChunk → List TimedChunk) where
  -- The body that is read back, for each kind of response: a stream sends the texts that were read, one
  -- by one, as they come out of the storage.
  abbrev pub Replays : Bool → Bool → Body → Payload → Type 0
  Replays true is_sse b p = b ≡ buffer p.bytes
  Replays false true b p =
      (t : ℤ) × (b
        ≡ replay
            (replay_stream_from_async_iterable true (stored (record_stream_with_timing t p.reads))))
      × (sent
            (replay_stream_from_async_iterable true (stored (record_stream_with_timing t p.reads)))
          ≡ map (λ r. r.value) p.reads)
  Replays false false b p = b ≡ text p.words

  -- A text that is not empty, or a stream that is not empty and whose texts the storage keeps.
  abbrev pub IsReplayable : Bool → Bool → Payload → Type 0
  IsReplayable true is_sse p = Unit
  IsReplayable false true p =
      (p.reads ≢ [])
      × ((t : ℤ)
          → map (λ c. c.data_) (stored (record_stream_with_timing t p.reads))
            ≡ map (λ r. r.value) p.reads)
  IsReplayable false false p = p.words ≢ []

  no_reads : (rs : List Read) → [] ≡ map (λ r. r.value) rs → rs ≡ []
  no_reads [] e = refl
  no_reads (r ∷ rs) e = cc

  some_stored :
      (p : Payload) (cs : List TimedChunk)
      → p.reads ≢ []
      → map (λ c. c.data_) cs ≡ map (λ r. r.value) p.reads
      → cs ≢ []
  some_stored p [] n e = absurd (n (no_reads p.reads e))
  some_stored p (c ∷ cs) n e = λ h. cc

module _ {W : Type 0} (host : Host W) (s : CacheStorage W host.lines.Value) (plain : Text → Bool)
    (valid : W → Type 0) (view : W → Contents host.lines.Value)
    (stored : List TimedChunk → List TimedChunk) (impl : Implements s plain valid view stored)
    (k : Text) (w : W) (h : plain k ≡ true) (v : valid w) where
  chunks_lem :
      (m : CachedResponseMeta) (cs : List TimedChunk)
      → cs ≢ []
      → reply_chunks host none k m cs w
        ≡ (some (some (respond host m (replay (replay_stream_from_async_iterable true cs)))), w)
  unfolding reply_chunks
  chunks_lem m [] n = absurd (n refl)
  chunks_lem m (c ∷ cs) n = refl

  sse_lem :
      (m : CachedResponseMeta) (cs : List TimedChunk)
      → (view w).chunks k ≡ cs
      → cs ≢ []
      → reply_sse host (some s) none k m w
        ≡ (some (some (respond host m (replay (replay_stream_from_async_iterable true cs)))), w)
  unfolding reply_sse
  sse_lem m cs e n = rw (impl.get_chunks (k, none) w h v, e) (chunks_lem m cs n)

  binary_lem :
      (m : CachedResponseMeta) (b : List ℕ)
      → (view w).binary k ≡ some b
      → reply_binary host (some s) k m w ≡ (some (some (respond host m (buffer b))), w)
  unfolding reply_binary
  binary_lem m b e = rw (impl.get_binary (k, none) w h v, e)

  text_lem :
      (m : CachedResponseMeta) (t : Text)
      → (view w).body k ≡ some t
      → t ≢ []
      → reply_text host (some s) none k m w ≡ (some (some (respond host m (text t))), w)
  unfolding reply_text
  text_lem m [] e n = absurd (n refl)
  text_lem m (c ∷ t) e n = rw (impl.get_body (k, none) w h v, e)

  kind_binary :
      (m : CachedResponseMeta)
      → m.is_binary ≡ true
      → reply_kind host (some s) none none k m w ≡ reply_binary host (some s) k m w
  unfolding reply_kind
  kind_binary m b = rw b

  kind_sse :
      (m : CachedResponseMeta)
      → m.is_binary ≡ false
      → m.is_sse ≡ true
      → reply_kind host (some s) none none k m w ≡ reply_sse host (some s) none k m w
  unfolding reply_kind
  kind_sse m b b' = rw (b, b')

  kind_text :
      (m : CachedResponseMeta)
      → m.is_binary ≡ false
      → m.is_sse ≡ false
      → reply_kind host (some s) none none k m w ≡ reply_text host (some s) none k m w
  unfolding reply_kind
  kind_text m b b' = rw (b, b')

  by_kind :
      (m : CachedResponseMeta) (p : Payload) (b b' : Bool)
      → m.is_binary ≡ b
      → m.is_sse ≡ b'
      → Holds stored b b' (view w) k p
      → IsReplayable stored b b' p
      → (body : Body) × (reply_kind host (some s) none none k m w
          ≡ (some (some (respond host m body)), w))
        × Replays stored b b' body p
  by_kind m p true b' e e' d n = (buffer p.bytes, kind_binary m e ∙ binary_lem m p.bytes d, refl)
  by_kind m p false true e e' (t, d) n = (
    replay (replay_stream_from_async_iterable true (stored (record_stream_with_timing t p.reads))),
    kind_sse m e e'
        ∙ sse_lem m (stored (record_stream_with_timing t p.reads)) d
            (some_stored stored p (stored (record_stream_with_timing t p.reads)) n.0 (n.1 t)),
    (t, refl, replayed_texts (stored (record_stream_with_timing t p.reads)) ∙ n.1 t),
  )
  by_kind m p false false e e' d n = (text p.words, kind_text m e e' ∙ text_lem m p.words d n, refl)

  find_lem :
      (m : CachedResponseMeta)
      → (view w).meta k ≡ some m
      → get_cached_response host k none none (some s) w ≡ reply_kind host (some s) none none k m w
  unfolding get_cached_response find_meta
  find_lem m e = rw (impl.get_meta (k, none) w h v, e)

  -- The record of a response is read back as the response: its status, its headers and, for each kind,
  -- its body. Nothing is written.
  pub get_cached_response_lem :
      (r : Response) (p : Payload)
      → IsRecord stored (view w) k r p
      → IsReplayable stored (is_binary_response r) (is_stream_response r) p
      → (body : Body) × (get_cached_response host k none none (some s) w ≡ (
        some (
            some (record {
              status = r.status;
              status_text = r.status_text;
              headers = host.make_headers (headers_to_record [] r.headers);
              body = body;
            })),
        w,
      ))
        × Replays stored (is_binary_response r) (is_stream_response r) body p
  get_cached_response_lem r p (m, found, (a, b, c, d, e), held) n =
      let (body, reply, same) =
        by_kind m p (is_binary_response r) (is_stream_response r) d e
          (coe 0 1 (i. Holds stored (d i) (e i) (view w) k p) held) n in
      (
        body,
        find_lem m found ∙ reply ∙ (λ i. (
          some (
              some (record {
                status = a i;
                status_text = b i;
                headers = host.make_headers (c i);
                body = body;
              })),
          w,
        )),
        same,
      )
