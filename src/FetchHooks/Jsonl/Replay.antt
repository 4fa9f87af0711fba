-- ===== src/FetchHooks/Jsonl/Replay.antt =====
-- packages/fetch-hooks/src/sse-handler.ts: recording a stream with its timing, and replaying it.
use effect_native.Prelude.{
  ℕ, zero, suc, ◌+◌, ◌*◌, ◌-◌, ◌≤◌, ◌≡◌, refl, ap, not, Bool, lt→ltb, sym, ◌∙◌, true, false, List,
  [], ◌∷◌, map, Text, min, ltb, length, if◌then◌else◌, arith,
}
use effect_native.Prelude.Int.{ℤ, pos, pos_part, ltb_ℤ, ◌-ℤ◌}
use effect_native.FetchHooks.Sse.{TimedChunk, chunk}

-- What the source of a recorded stream gives: the time of the read, and the decoded text.
pub record Read : Type 0 where
  pub now : ℤ
  pub value : Text

unfoldable pub record_stream_with_timing : ℤ → List Read → List TimedChunk
unfolding ◌-ℤ◌
record_stream_with_timing last_chunk_time [] = []
record_stream_with_timing last_chunk_time (r ∷ rs) =
    chunk r.value (r.now -ℤ last_chunk_time) ∷ record_stream_with_timing r.now rs

-- What a replayed stream does.
pub data Action : Type 0 where
  wait : ℕ → Action
  enqueue : Text → Action
  close : Action

abbrev pub delay : TimedChunk → List Action → List Action
delay c rest =
    if ltb_ℤ (pos 0) c.delay_ms then wait (min (pos_part c.delay_ms) 30000) ∷ rest else rest

-- The pulls of `replayStreamWithTiming`, from the chunk at `chunk_index`.
unfoldable pub replay_stream_with_timing : ℕ → List TimedChunk → List Action
replay_stream_with_timing chunk_index [] = close ∷ []
replay_stream_with_timing chunk_index (c ∷ cs) =
    let rest = enqueue c.data_ ∷ replay_stream_with_timing (suc chunk_index) cs in
    if ltb 0 chunk_index then delay c rest else rest

-- The pulls of `replayStreamFromAsyncIterable`.
unfoldable pub replay_stream_from_async_iterable : Bool → List TimedChunk → List Action
replay_stream_from_async_iterable is_first [] = close ∷ []
replay_stream_from_async_iterable is_first (c ∷ cs) =
    let rest = enqueue c.data_ ∷ replay_stream_from_async_iterable false cs in
    if not is_first then delay c rest else rest

abbrev pub waited : List Action → ℕ
waited [] = 0
waited (wait n ∷ actions) = n + waited actions
waited (enqueue t ∷ actions) = waited actions
waited (close ∷ actions) = waited actions

abbrev pub sent : List Action → List Text
sent [] = []
sent (wait n ∷ actions) = sent actions
sent (enqueue t ∷ actions) = t ∷ sent actions
sent (close ∷ actions) = sent actions

later_delay :
    (i : ℕ) (c : TimedChunk) (cs : List TimedChunk)
    → replay_stream_with_timing (suc i) (c ∷ cs)
      ≡ delay c (enqueue c.data_ ∷ replay_stream_with_timing (suc (suc i)) cs)
unfolding replay_stream_with_timing
later_delay i c cs = rw (lt→ltb 0 (suc i) (omega arith))

sent-delay : (c : TimedChunk) (actions : List Action) → sent (delay c actions) ≡ sent actions
sent-delay c actions = ground arith

waited-delay :
    (c : TimedChunk) (actions : List Action) → waited (delay c actions) ≤ 30000 + waited actions
waited-delay c actions = ground arith

replays_later :
    (i : ℕ) (cs : List TimedChunk)
    → replay_stream_from_async_iterable false cs ≡ replay_stream_with_timing (suc i) cs
unfolding replay_stream_with_timing replay_stream_from_async_iterable
replays_later i [] = refl
replays_later i (c ∷ cs) =
    ap (λ r. delay c (enqueue c.data_ ∷ r)) (replays_later (suc i) cs) ∙ sym (later_delay i c cs)

-- The replay of a list of chunks and the replay of an iterable of the same chunks do the same.
pub replays_agree :
    (cs : List TimedChunk)
    → replay_stream_from_async_iterable true cs ≡ replay_stream_with_timing 0 cs
unfolding replay_stream_with_timing replay_stream_from_async_iterable
replays_agree [] = refl
replays_agree (c ∷ cs) = ap (λ r. enqueue c.data_ ∷ r) (replays_later 0 cs)

-- From whatever chunk index, a replay sends the texts of its chunks in order.
pub sent_lem :
    (i : ℕ) (cs : List TimedChunk) → sent (replay_stream_with_timing i cs) ≡ map (λ c. c.data_) cs
unfolding replay_stream_with_timing
sent_lem i [] = refl
sent_lem zero (c ∷ cs) = ap (λ ts. c.data_ ∷ ts) (sent_lem 1 cs)
sent_lem (suc i) (c ∷ cs) = rw (later_delay i c cs, sent-delay, sent_lem (suc (suc i)) cs)

waited_later :
    (i : ℕ) (cs : List TimedChunk)
    → waited (replay_stream_with_timing (suc i) cs) ≤ length cs * 30000
unfolding replay_stream_with_timing
waited_later i [] = omega arith
waited_later i (c ∷ cs) = rw (later_delay i c cs) (
    omega (
      arith,
      waited_later (suc i) cs,
      waited-delay c (enqueue c.data_ ∷ replay_stream_with_timing (suc (suc i)) cs),
    ))

-- A replay waits at most thirty seconds for each chunk but the first.
pub waited-replay_stream_with_timing :
    (cs : List TimedChunk) → waited (replay_stream_with_timing 0 cs) ≤ (length cs - 1) * 30000
unfolding replay_stream_with_timing
waited-replay_stream_with_timing [] = omega arith
waited-replay_stream_with_timing (c ∷ cs) = omega (arith, waited_later 0 cs)
