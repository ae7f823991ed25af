-- ===== src/Server/Protocol/Measured.antt =====
-- The diagram and the handlers in src/mioserver/handlers that write chunks, start the clock or report
-- what was measured.
use nettest.Common.{
  ℕ, Bool, false, Option, none, some, ◌≡◌, refl, ◌∙◌, List, [], ◌∷◌, length, inl, inr,
}
use nettest.Net.{
  Interest, readable, writable, both, Outcome, ok, Stream, flush, reregister, reregister_by,
  Registration, registered, refused,
}
use nettest.Chunks.{Filler}
use nettest.Server.{
  ServerTestPhase, TestState, fill, then_stream, get_chunk_send_chunk, get_chunks_send_chunks_last,
  get_chunks_send_time, pong_send, ping_receive_ok, get_time_send_chunk, get_time_send_last_chunk,
  get_time_send_time, put_send_ok, put_send_bytes, put_time_result_send_ok,
  put_time_result_send_time_result,
}
use nettest.Server.Greeting.{ok_line}
use nettest.Server.GetChunks.{handle_get_chunks_send_chunks_last, handle_get_chunks_send_time}
use nettest.Server.GetTime.{start_clock, handle_get_time_send_time, handle_perf_send_last_chunk}
use nettest.Server.Ping.{pong, handle_pong_send}
use nettest.Server.Put.{handle_put_send_ok, handle_put_send_bytes}
use nettest.Server.PutTimeResult.{
  restart, handle_put_time_result_send_ok, handle_put_time_result_send_time,
}
use nettest.Server.Protocol.{
  Wakes, Keeps, if_elim, enter-Keeps, unwrap-Keeps, written-Keeps, last_chunk_sent, chunks_reported,
  ponged, last_sent, time_reported, put_ready, chunk_reported, last_reported, result_ready,
  result_reported,
}
use nettest.Common.{◌==◌, ◌+◌}
use nettest.Net.{flush_by, Flush, flushed, flush_fails}
use nettest.Chunks.{storage_get}
use nettest.Server.GetChunks.{start_chunks, chunk_round, last_index, handle_get_chunks_send_chunks}
use nettest.Server.GetTime.{
  flush_web_socket, flush_or_panic, time_round, handle_get_time_send_chunk, is_web_socket,
}
use nettest.Server.Protocol.{chunks_sent, time_over, still_awake}
use nettest.Server.Protocol.Loops.{Here, FlowKeeps, send_loop-Keeps}

started :
    (c : Option ℕ) (s : TestState)
    → ((start_clock c s).measurement_state ≡ s.measurement_state)
      × ((start_clock c s).stream.interest ≡ s.stream.interest)
started none s = (refl, refl)
started (some t) s = (refl, refl)

restarted :
    (c : Option ℕ) (s : TestState)
    → ((restart c s).measurement_state ≡ s.measurement_state)
      × ((restart c s).stream.interest ≡ s.stream.interest)
restarted none s = (refl, refl)
restarted (some t) s = (refl, refl)

chunks_started :
    (c : Option ℕ) (s : TestState)
    → ((start_chunks c s).measurement_state ≡ s.measurement_state)
      × ((start_chunks c s).stream.interest ≡ s.stream.interest)
chunks_started none s = (refl, refl)
chunks_started (some t) s = (refl, refl)

-- A flush of a WebSocket stream panics if it fails.
web_flush-Keeps :
    (p : ServerTestPhase) (i : Interest) (t : TestState) (k : TestState → Outcome TestState)
    → ((u : Stream) → Keeps p i (k (record t { stream = u })))
    → Keeps p i (flush_web_socket t k)
unfolding flush_web_socket flush_or_panic flush
web_flush-Keeps p i t k h =
    if_elim (Keeps p i) (is_web_socket t.stream.kind) (go t.stream.flushes) (h t.stream)
  where
    go : (fs : List Flush) → Keeps p i (flush_or_panic t (flush_by fs t.stream) k)
    go [] = h _
    go (flushed ∷ fs) = h _
    go (flush_fails x ∷ fs) = tt

chunk_round-Keeps :
    (i : Interest) (len n : ℕ) (t : TestState)
    → Wakes get_chunk_send_chunk i
    → Here get_chunk_send_chunk i t
    → FlowKeeps get_chunk_send_chunk i (chunk_round len n t)
unfolding chunk_round
chunk_round-Keeps i len n t w h =
    if_elim (FlowKeeps get_chunk_send_chunk i) (n == 0) (inr h.0, still_awake w h.0 h.1)
      (if_elim (FlowKeeps get_chunk_send_chunk i) (t.write_pos + n == len)
        (if_elim (FlowKeeps get_chunk_send_chunk i)
          (t.processed_chunks + 1 == last_index t.num_chunks)
          (enter-Keeps get_chunk_send_chunk i writable n _ chunks_sent refl) h)
        h)

pub handle_get_chunks_send_chunks-Keeps :
    (random : Filler) (s : TestState) (i : Interest)
    → s.measurement_state ≡ get_chunk_send_chunk
    → s.stream.interest ≡ i
    → Wakes get_chunk_send_chunk i
    → Keeps get_chunk_send_chunk i (handle_get_chunks_send_chunks random s)
unfolding handle_get_chunks_send_chunks
handle_get_chunks_send_chunks-Keeps random s i e f w =
    let g = chunks_started s.clock s in
    let t = start_chunks s.clock s in
    unwrap-Keeps get_chunk_send_chunk i (storage_get random false t.chunk_size) t _ (λ chunk.
      if_elim (Keeps get_chunk_send_chunk i) (t.processed_chunks == last_index t.num_chunks)
        (enter-Keeps get_chunk_send_chunk i writable 1 t chunks_sent refl)
        (send_loop-Keeps get_chunk_send_chunk i (chunk_round (length chunk))
          (λ n t h. chunk_round-Keeps i (length chunk) n t w h) chunk t (g.0 ∙ e, g.1 ∙ f)))

pub handle_get_chunks_send_chunks_last-Keeps :
    (random : Filler) (s : TestState) (i : Interest)
    → s.measurement_state ≡ get_chunks_send_chunks_last
    → s.stream.interest ≡ i
    → Wakes get_chunks_send_chunks_last i
    → Keeps get_chunks_send_chunks_last i (handle_get_chunks_send_chunks_last random s)
unfolding handle_get_chunks_send_chunks_last
handle_get_chunks_send_chunks_last-Keeps random s i e f w =
    unwrap-Keeps get_chunks_send_chunks_last i _ s _ (λ chunk.
      written-Keeps get_chunks_send_chunks_last i s _ _ _ _ e f (λ n c g.
        if_elim (Keeps get_chunks_send_chunks_last i) (n == 0) (inr e, still_awake w e (g.0 ∙ f))
          (enter-Keeps get_chunks_send_chunks_last i readable n _ last_chunk_sent refl)))

pub handle_get_chunks_send_time-Keeps :
    (s : TestState) (i : Interest)
    → s.measurement_state ≡ get_chunks_send_time
    → s.stream.interest ≡ i
    → Wakes get_chunks_send_time i
    → Keeps get_chunks_send_time i (handle_get_chunks_send_time s)
unfolding handle_get_chunks_send_time
handle_get_chunks_send_time-Keeps s i e f w =
    unwrap-Keeps get_chunks_send_time i s.time_ns s _ (λ time.
      written-Keeps get_chunks_send_time i (record s { clock = none }) _ _ _ _ e f
        (λ n c g.
          if_elim (Keeps get_chunks_send_time i) (n == 0) (inr e, still_awake w e (g.0 ∙ f))
            (enter-Keeps get_chunks_send_time i writable n _ chunks_reported refl)))

time_round-Keeps :
    (i : Interest) (is_last : Bool) (len n : ℕ) (t : TestState)
    → Here get_time_send_chunk i t
    → FlowKeeps get_time_send_chunk i (time_round is_last len n t)
unfolding time_round
time_round-Keeps i is_last len n t h =
    if_elim (FlowKeeps get_time_send_chunk i) (t.write_pos + n == len)
      (if_elim (FlowKeeps get_time_send_chunk i) is_last
        (web_flush-Keeps get_time_send_chunk i _ _
          (λ u. enter-Keeps get_time_send_chunk i both n _ time_over refl))
        h)
      h

pub handle_get_time_send_chunk-Keeps :
    (random : Filler) (s : TestState) (i : Interest)
    → s.measurement_state ≡ get_time_send_chunk
    → s.stream.interest ≡ i
    → Keeps get_time_send_chunk i (handle_get_time_send_chunk random s)
unfolding handle_get_time_send_chunk
handle_get_time_send_chunk-Keeps random s i e f =
    let g = started s.clock s in
    unwrap-Keeps get_time_send_chunk i _ _ _ (λ since.
      unwrap-Keeps get_time_send_chunk i _ _ _ (λ chunk.
        send_loop-Keeps get_time_send_chunk i _ (λ n t h. time_round-Keeps i _ (length chunk) n t h)
          chunk _ (g.0 ∙ e, g.1 ∙ f)))

pub handle_perf_send_last_chunk-Keeps :
    (random : Filler) (s : TestState) (i : Interest)
    → s.measurement_state ≡ get_time_send_last_chunk
    → s.stream.interest ≡ i
    → Keeps get_time_send_last_chunk i (handle_perf_send_last_chunk random s)
unfolding handle_perf_send_last_chunk
handle_perf_send_last_chunk-Keeps random s i e f =
    unwrap-Keeps get_time_send_last_chunk i _ _ _ (λ chunk.
      written-Keeps get_time_send_last_chunk i _ _ _ _ _ e f (λ n c g.
        web_flush-Keeps get_time_send_last_chunk i _ _
          (λ u. enter-Keeps get_time_send_last_chunk i both n _ last_sent refl)))

pub handle_get_time_send_time-Keeps :
    (s : TestState) (i : Interest)
    → s.measurement_state ≡ get_time_send_time
    → s.stream.interest ≡ i
    → Keeps get_time_send_time i (handle_get_time_send_time s)
unfolding handle_get_time_send_time
handle_get_time_send_time-Keeps s i e f = unwrap-Keeps get_time_send_time i s.time_ns s _ (λ time.
    written-Keeps get_time_send_time i (record s { clock = none }) _ _ _ _ e f
      (λ n c g. enter-Keeps get_time_send_time i writable n _ time_reported refl))

pong_end-Keeps :
    (i : Interest) (n : ℕ) (t : TestState)
    → Keeps pong_send i (
        then_stream t
          (reregister readable t.stream)
          (λ u. ok n (record u { write_pos = 0; measurement_state = ping_receive_ok })))
unfolding reregister then_stream
pong_end-Keeps i n t = go t.stream.registrations
  where
    go :
        (rs : List Registration)
        → Keeps pong_send i (
            then_stream t
              (reregister_by rs readable t.stream)
              (λ u. ok n (record u { write_pos = 0; measurement_state = ping_receive_ok })))
    go [] = (inl ponged, refl)
    go (registered ∷ rs) = (inl ponged, refl)
    go (refused ∷ rs) = tt

pub handle_pong_send-Keeps :
    (s : TestState) (i : Interest)
    → s.measurement_state ≡ pong_send
    → s.stream.interest ≡ i
    → Keeps pong_send i (handle_pong_send s)
unfolding handle_pong_send
handle_pong_send-Keeps s i e f =
    let g = started s.clock (fill pong s) in
    written-Keeps pong_send i (start_clock s.clock (fill pong s)) _ _ _ _ (g.0 ∙ e) (g.1 ∙ f)
      (λ n c k. pong_end-Keeps i n _)

pub handle_put_send_ok-Keeps :
    (s : TestState) (i : Interest)
    → s.measurement_state ≡ put_send_ok
    → s.stream.interest ≡ i
    → Keeps put_send_ok i (handle_put_send_ok s)
unfolding handle_put_send_ok
handle_put_send_ok-Keeps s i e f =
    let g = started s.clock (fill ok_line s) in
    written-Keeps put_send_ok i (start_clock s.clock (fill ok_line s)) _ _ _ _ (g.0 ∙ e) (g.1 ∙ f)
      (λ n c k. enter-Keeps put_send_ok i readable n _ put_ready refl)

pub handle_put_time_result_send_ok-Keeps :
    (s : TestState) (i : Interest)
    → s.measurement_state ≡ put_time_result_send_ok
    → s.stream.interest ≡ i
    → Keeps put_time_result_send_ok i (handle_put_time_result_send_ok s)
unfolding handle_put_time_result_send_ok
handle_put_time_result_send_ok-Keeps s i e f =
    let g = restarted s.clock s in
    written-Keeps put_time_result_send_ok i (fill ok_line (restart s.clock s)) _ _ _ _ (g.0 ∙ e)
      (g.1 ∙ f) (λ n c k. enter-Keeps put_time_result_send_ok i readable n _ result_ready refl)

pub handle_put_send_bytes-Keeps :
    (s : TestState) (i : Interest)
    → s.measurement_state ≡ put_send_bytes
    → s.stream.interest ≡ i
    → Keeps put_send_bytes i (handle_put_send_bytes s)
unfolding handle_put_send_bytes
handle_put_send_bytes-Keeps s i e f = unwrap-Keeps put_send_bytes i s.time_ns s _ (λ time.
    written-Keeps put_send_bytes i _ _ _ _ _ e f (λ n c g. unwrap-Keeps put_send_bytes i _ _ _ (λ b.
      if_elim (Keeps put_send_bytes i) (b == 0xFF)
        (enter-Keeps put_send_bytes i writable n _ last_reported refl)
        (enter-Keeps put_send_bytes i readable n _ chunk_reported refl))))

pub handle_put_time_result_send_time-Keeps :
    (s : TestState) (i : Interest)
    → s.measurement_state ≡ put_time_result_send_time_result
    → s.stream.interest ≡ i
    → Keeps put_time_result_send_time_result i (handle_put_time_result_send_time s)
unfolding handle_put_time_result_send_time
handle_put_time_result_send_time-Keeps s i e f =
    written-Keeps put_time_result_send_time_result i _ _ _ _ _ e f (λ n c g.
      unwrap-Keeps put_time_result_send_time_result i _ _ _
        (λ since. enter-Keeps put_time_result_send_time_result i writable n _ result_reported refl))
