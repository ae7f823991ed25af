-- ===== src/Server/Protocol/Reading.antt =====
-- The diagram and the handlers in src/mioserver/handlers that read.
use nettest.Common.{ℕ, Option, none, some, ◌≡◌, refl, Bytes, length}
use nettest.Net.{Interest, writable, Outcome, Stream}
use nettest.Net.Loop.{Kept}
use nettest.Server.{
  ServerTestPhase, TestState, enter, greeting_receive_connection_type, greeting_receive_token,
  get_chunks_receive_ok, ping_receive_ok, get_time_receive_ok, put_no_result_receive_chunk,
  put_receive_chunk, put_time_result_receive_chunk,
}
use nettest.Server.Greeting.{ok_line}
use nettest.Server.Put.{last_received}
use nettest.Server.Protocol.{Keeps, if_elim, enter-Keeps, unwrap-Keeps}
use nettest.Common.{◌==◌, ◌+◌, ◌&&◌, ltb, leb, codes, ends_at, take, bytes_eq}
use nettest.Net.{Flow, Reader, read_loop}
use nettest.Net.Loop.{StreamKept, read_loop-Kept}
use nettest.Server.{reregister_with, read_to}
use nettest.Server.Greeting.{
  until_end, until_newline, handle_greeting_accep_token_read, handle_greeting_receive_token,
}
use nettest.Server.GetChunks.{until_ok, handle_get_chunks_receive_ok}
use nettest.Server.GetTime.{handle_get_time_receive_ok}
use nettest.Server.Ping.{until_ok_or_eof, handle_ping_receive_ok}
use nettest.Server.Put.{put_round, handle_put_receive_chunk}
use nettest.Server.PutNoResult.{
  no_result_round, no_result_chunk, with_last, handle_put_no_result_receive_chunk,
}
use nettest.Server.PutTimeResult.{
  time_result_round, time_result_chunk, with_clock, handle_put_time_result_receive_chunk,
}
use nettest.Server.Protocol.{
  read-Keeps, upgraded, token_received, chunks_confirmed, time_confirmed, ping_confirmed,
  chunk_received, no_result_done, result_done,
}
use nettest.Server.Protocol.Loops.{Here, FlowKeeps, chunk_loop-Keeps}

self-Kept : (s : Stream) → Kept s s
self-Kept s = (refl, refl, refl, refl)

until_end-kept : (end : Bytes) (n : ℕ) (r : Reader) → StreamKept r (until_end end n r)
unfolding until_end
until_end-kept end n r =
    if_elim (StreamKept r) (ends_at end r.buffer (r.pos + n)) (self-Kept r.stream)
      (self-Kept r.stream)

until_newline-kept : (n : ℕ) (r : Reader) → StreamKept r (until_newline n r)
unfolding until_newline
until_newline-kept n r =
    if_elim (StreamKept r) (ltb 0 n && ends_at (codes "\n") r.buffer (r.pos + n))
      (self-Kept r.stream) (self-Kept r.stream)

until_ok-kept : (n : ℕ) (r : Reader) → StreamKept r (until_ok n r)
unfolding until_ok
until_ok-kept n r =
    if_elim (StreamKept r) (leb (r.pos + n) (length r.buffer))
      (if_elim (StreamKept r) (bytes_eq (take (r.pos + n) r.buffer) ok_line) (self-Kept r.stream)
        (self-Kept r.stream))
      (self-Kept r.stream)

until_ok_or_eof-kept : (n : ℕ) (r : Reader) → StreamKept r (until_ok_or_eof n r)
unfolding until_ok_or_eof
until_ok_or_eof-kept n r = if_elim (StreamKept r) (n == 0) (self-Kept r.stream) (
    if_elim (StreamKept r) (bytes_eq (take (length ok_line) r.buffer) ok_line) (self-Kept r.stream)
      (self-Kept r.stream))

module _ (p : ServerTestPhase) (i : Interest) where
  -- The loop that reads behind the position, and the loop that reads at the front.
  pub tail_read-Keeps :
      (s : TestState) (at : Reader → ℕ) (body : ℕ → Reader → Flow Reader)
      (k : ℕ → TestState → Outcome TestState)
      → ((n : ℕ) (r : Reader) → StreamKept r (body n r))
      → s.measurement_state ≡ p
      → s.stream.interest ≡ i
      → ((n : ℕ) (r : Reader)
          → Kept s.stream r.stream
          → Keeps p i
              (k n (record s { stream = r.stream; read_buffer = r.buffer; read_pos = r.pos })))
      → Keeps p i (read_to at body s k)
  tail_read-Keeps s at body k kept e f h =
      read-Keeps p i s
        (read_loop at body s.stream.reads
          (record { stream = s.stream; buffer = s.read_buffer; pos = s.read_pos }))
        k e f
        (read_loop-Kept body kept
          (record { stream = s.stream; buffer = s.read_buffer; pos = s.read_pos }) at
          s.stream.reads)
        h

pub handle_greeting_accep_token_read-Keeps :
    (s : TestState) (i : Interest)
    → s.measurement_state ≡ greeting_receive_connection_type
    → s.stream.interest ≡ i
    → Keeps greeting_receive_connection_type i (handle_greeting_accep_token_read s)
unfolding handle_greeting_accep_token_read
handle_greeting_accep_token_read-Keeps s i e f =
    tail_read-Keeps greeting_receive_connection_type i s _ _ _ (until_end-kept _) e f
      (λ n r g. enter-Keeps greeting_receive_connection_type i writable n _ upgraded refl)

pub handle_greeting_receive_token-Keeps :
    (s : TestState) (i : Interest)
    → s.measurement_state ≡ greeting_receive_token
    → s.stream.interest ≡ i
    → Keeps greeting_receive_token i (handle_greeting_receive_token s)
unfolding handle_greeting_receive_token enter reregister_with
handle_greeting_receive_token-Keeps s i e f =
    tail_read-Keeps greeting_receive_token i s _ _ _ until_newline-kept e f (λ n r g.
      enter-Keeps greeting_receive_token i writable n
        (record s { stream = r.stream; read_buffer = r.buffer; read_pos = 0 }) token_received refl)

pub handle_get_chunks_receive_ok-Keeps :
    (s : TestState) (i : Interest)
    → s.measurement_state ≡ get_chunks_receive_ok
    → s.stream.interest ≡ i
    → Keeps get_chunks_receive_ok i (handle_get_chunks_receive_ok s)
unfolding handle_get_chunks_receive_ok
handle_get_chunks_receive_ok-Keeps s i e f =
    tail_read-Keeps get_chunks_receive_ok i s _ _ _ until_ok-kept e f (λ n r g.
      unwrap-Keeps get_chunks_receive_ok i s.clock _ _
        (λ since. enter-Keeps get_chunks_receive_ok i writable n _ chunks_confirmed refl))

pub handle_get_time_receive_ok-Keeps :
    (s : TestState) (i : Interest)
    → s.measurement_state ≡ get_time_receive_ok
    → s.stream.interest ≡ i
    → Keeps get_time_receive_ok i (handle_get_time_receive_ok s)
unfolding handle_get_time_receive_ok
handle_get_time_receive_ok-Keeps s i e f =
    tail_read-Keeps get_time_receive_ok i s _ _ _ until_ok-kept e f (λ n r g.
      unwrap-Keeps get_time_receive_ok i s.clock _ _
        (λ since. enter-Keeps get_time_receive_ok i writable n _ time_confirmed refl))

pub handle_ping_receive_ok-Keeps :
    (s : TestState) (i : Interest)
    → s.measurement_state ≡ ping_receive_ok
    → s.stream.interest ≡ i
    → Keeps ping_receive_ok i (handle_ping_receive_ok s)
unfolding handle_ping_receive_ok
handle_ping_receive_ok-Keeps s i e f =
    tail_read-Keeps ping_receive_ok i s _ _ _ until_ok_or_eof-kept e f (λ n r g.
      unwrap-Keeps ping_receive_ok i s.clock _ _
        (λ since. enter-Keeps ping_receive_ok i writable n _ ping_confirmed refl))

put_round-Keeps :
    (i : Interest) (n : ℕ) (t : TestState)
    → Here put_receive_chunk i t
    → FlowKeeps put_receive_chunk i (put_round n t)
unfolding put_round
put_round-Keeps i n t h = if_elim (FlowKeeps put_receive_chunk i) (n == 0) tt (
    if_elim (FlowKeeps put_receive_chunk i) (t.read_pos + n == t.chunk_size)
      (unwrap-Keeps put_receive_chunk i t.clock _ _
        (λ since. enter-Keeps put_receive_chunk i writable n _ chunk_received refl))
      h)

pub handle_put_receive_chunk-Keeps :
    (s : TestState) (i : Interest)
    → s.measurement_state ≡ put_receive_chunk
    → s.stream.interest ≡ i
    → Keeps put_receive_chunk i (handle_put_receive_chunk s)
unfolding handle_put_receive_chunk
handle_put_receive_chunk-Keeps s i e f =
    chunk_loop-Keeps put_receive_chunk i put_round (λ n t h. put_round-Keeps i n t h) s (e, f)

with_last-Keeps :
    (p : ServerTestPhase) (i : Interest) (o : Option ℕ) (s : TestState) (k : ℕ → Flow TestState)
    → ((b : ℕ) → FlowKeeps p i (k b))
    → FlowKeeps p i (with_last o s k)
with_last-Keeps p i none s k h = tt
with_last-Keeps p i (some b) s k h = h b

no_result_chunk-Keeps :
    (i : Interest) (b n : ℕ) (t : TestState)
    → Here put_no_result_receive_chunk i t
    → FlowKeeps put_no_result_receive_chunk i (no_result_chunk b n t)
unfolding no_result_chunk
no_result_chunk-Keeps i b n t h =
    if_elim (FlowKeeps put_no_result_receive_chunk i) (b == 0xFF)
      (unwrap-Keeps put_no_result_receive_chunk i t.clock _ _
        (λ since. enter-Keeps put_no_result_receive_chunk i writable n _ no_result_done refl))
      (if_elim (FlowKeeps put_no_result_receive_chunk i) (b == 0x00) h tt)

no_result_round-Keeps :
    (i : Interest) (n : ℕ) (t : TestState)
    → Here put_no_result_receive_chunk i t
    → FlowKeeps put_no_result_receive_chunk i (no_result_round n t)
unfolding no_result_round
no_result_round-Keeps i n t h = if_elim (FlowKeeps put_no_result_receive_chunk i) (n == 0) tt (
    if_elim (FlowKeeps put_no_result_receive_chunk i) (t.read_pos + n == t.chunk_size)
      (with_last-Keeps put_no_result_receive_chunk i
        (last_received (record t { read_pos = t.read_pos + n })) _ _
        (λ b. no_result_chunk-Keeps i b n _ h))
      h)

pub handle_put_no_result_receive_chunk-Keeps :
    (s : TestState) (i : Interest)
    → s.measurement_state ≡ put_no_result_receive_chunk
    → s.stream.interest ≡ i
    → Keeps put_no_result_receive_chunk i (handle_put_no_result_receive_chunk s)
unfolding handle_put_no_result_receive_chunk
handle_put_no_result_receive_chunk-Keeps s i e f =
    chunk_loop-Keeps put_no_result_receive_chunk i no_result_round
      (λ n t h. no_result_round-Keeps i n t h) s (e, f)

with_clock-Keeps :
    (p : ServerTestPhase) (i : Interest) (o : Option ℕ) (s : TestState) (k : ℕ → Flow TestState)
    → ((b : ℕ) → FlowKeeps p i (k b))
    → FlowKeeps p i (with_clock o s k)
with_clock-Keeps p i none s k h = tt
with_clock-Keeps p i (some b) s k h = h b

time_result_chunk-Keeps :
    (i : Interest) (b n : ℕ) (t : TestState)
    → Here put_time_result_receive_chunk i t
    → FlowKeeps put_time_result_receive_chunk i (time_result_chunk b n t)
unfolding time_result_chunk
time_result_chunk-Keeps i b n t h =
    if_elim (FlowKeeps put_time_result_receive_chunk i) (b == 0xFF)
      (enter-Keeps put_time_result_receive_chunk i writable n _ result_done refl)
      (if_elim (FlowKeeps put_time_result_receive_chunk i) (b == 0x00) h tt)

time_result_round-Keeps :
    (i : Interest) (n : ℕ) (t : TestState)
    → Here put_time_result_receive_chunk i t
    → FlowKeeps put_time_result_receive_chunk i (time_result_round n t)
unfolding time_result_round
time_result_round-Keeps i n t h = if_elim (FlowKeeps put_time_result_receive_chunk i) (n == 0) tt (
    if_elim (FlowKeeps put_time_result_receive_chunk i) (t.read_pos + n == t.chunk_size)
      (with_clock-Keeps put_time_result_receive_chunk i t.clock _ _ (λ since.
        with_last-Keeps put_time_result_receive_chunk i
          (last_received (record t { read_pos = t.read_pos + n })) _ _
          (λ b. time_result_chunk-Keeps i b n _ h)))
      h)

pub handle_put_time_result_receive_chunk-Keeps :
    (s : TestState) (i : Interest)
    → s.measurement_state ≡ put_time_result_receive_chunk
    → s.stream.interest ≡ i
    → Keeps put_time_result_receive_chunk i (handle_put_time_result_receive_chunk s)
unfolding handle_put_time_result_receive_chunk
handle_put_time_result_receive_chunk-Keeps s i e f =
    chunk_loop-Keeps put_time_result_receive_chunk i time_result_round
      (λ n t h. time_result_round-Keeps i n t h) s (e, f)
