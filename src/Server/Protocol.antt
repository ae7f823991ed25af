-- ===== src/Server/Protocol.antt =====
-- The protocol's diagram, what the poll must report in each phase, and the rules by which the
-- handlers keep to both.
pub mod Loops
pub mod Writing
pub mod Measured
pub mod Reading
pub mod Commands
pub mod Events
pub mod Reach
use nettest.Common.{
  ℕ, List, [], ◌∷◌, Bool, true, false, Option, none, some, Bytes, ◌≡◌, ◌⊎◌, inl, inr, refl, ◌∙◌,
  if◌then◌else◌, arith, length,
}
use nettest.Net.{
  Outcome, ok, err, panic, final, ErrorKind, would_block, timed_out, unexpected_eof, other,
  Interest, readable, writable, both, Stream, Reader, Registration, registered, refused, Flush,
  flushed, flush_fails, flush, flush_by, Cursor, ZeroWrite, write_loop, reregister, reregister_by,
  Flow, again, stop,
}
use nettest.Net.Loop.{Kept, write_loop-Kept, HeldFlow}
use nettest.Server.{
  ServerTestPhase, TestState, enter, then_stream, then_written, then_read, unwrap,
  greeting_receive_connection_type, greeting_send_version, greeting_send_accept_token,
  greeting_receive_token, greeting_send_ok, greeting_send_chunksize, accept_token_quit,
  accept_command_receive, accept_command_send, get_chunk_send_ok, get_chunk_send_chunk,
  get_chunks_receive_ok, get_chunks_send_chunks_last, get_chunks_send_time, pong_send,
  ping_receive_ok, ping_send_time, get_time_send_chunk, get_time_send_last_chunk,
  get_time_receive_ok, get_time_send_time, put_no_result_send_ok, put_no_result_receive_chunk,
  put_no_result_send_time, put_send_ok, put_receive_chunk, put_send_bytes, put_send_time,
  put_time_result_send_ok, put_time_result_receive_chunk, put_time_result_send_time_result,
}

-- The diagram: from which phase a handler may go to which.
infix 40 ◌⟶◌
pub data ◌⟶◌ : ServerTestPhase → ServerTestPhase → Type 0 where
  upgraded : greeting_receive_connection_type ⟶ greeting_send_accept_token
  versioned : greeting_send_version ⟶ greeting_send_accept_token
  asked : greeting_send_accept_token ⟶ greeting_receive_token
  token_received : greeting_receive_token ⟶ greeting_send_ok
  token_accepted : greeting_send_ok ⟶ greeting_send_chunksize
  sizes_sent : greeting_send_chunksize ⟶ accept_command_send
  prompted : accept_command_send ⟶ accept_command_receive
  chunks_asked : accept_command_receive ⟶ get_chunk_send_chunk
  ping_asked : accept_command_receive ⟶ pong_send
  time_asked : accept_command_receive ⟶ get_time_send_chunk
  no_result_asked : accept_command_receive ⟶ put_no_result_send_ok
  result_asked : accept_command_receive ⟶ put_time_result_send_ok
  put_asked : accept_command_receive ⟶ put_send_ok
  chunks_ok : get_chunk_send_ok ⟶ get_chunk_send_chunk
  chunks_sent : get_chunk_send_chunk ⟶ get_chunks_send_chunks_last
  last_chunk_sent : get_chunks_send_chunks_last ⟶ get_chunks_receive_ok
  chunks_confirmed : get_chunks_receive_ok ⟶ get_chunks_send_time
  chunks_reported : get_chunks_send_time ⟶ accept_command_send
  ponged : pong_send ⟶ ping_receive_ok
  ping_confirmed : ping_receive_ok ⟶ ping_send_time
  ping_reported : ping_send_time ⟶ accept_command_send
  time_over : get_time_send_chunk ⟶ get_time_send_last_chunk
  last_sent : get_time_send_last_chunk ⟶ get_time_receive_ok
  time_confirmed : get_time_receive_ok ⟶ get_time_send_time
  time_reported : get_time_send_time ⟶ accept_command_send
  no_result_ready : put_no_result_send_ok ⟶ put_no_result_receive_chunk
  no_result_done : put_no_result_receive_chunk ⟶ put_no_result_send_time
  no_result_reported : put_no_result_send_time ⟶ accept_command_send
  put_ready : put_send_ok ⟶ put_receive_chunk
  chunk_received : put_receive_chunk ⟶ put_send_bytes
  chunk_reported : put_send_bytes ⟶ put_receive_chunk
  last_reported : put_send_bytes ⟶ put_send_time
  put_reported : put_send_time ⟶ accept_command_send
  result_ready : put_time_result_send_ok ⟶ put_time_result_receive_chunk
  result_done : put_time_result_receive_chunk ⟶ put_time_result_send_time_result
  result_reported : put_time_result_send_time_result ⟶ accept_command_send

-- The phases that wait for bytes of the peer.
abbrev pub receives : ServerTestPhase → Bool
receives greeting_receive_connection_type = true
receives greeting_receive_token = true
receives accept_command_receive = true
receives get_chunks_receive_ok = true
receives ping_receive_ok = true
receives get_time_receive_ok = true
receives put_no_result_receive_chunk = true
receives put_receive_chunk = true
receives put_time_result_receive_chunk = true
receives _ = false

abbrev pub reports_read : Interest → Bool
reports_read writable = false
reports_read _ = true

abbrev pub reports_write : Interest → Bool
reports_write readable = false
reports_write _ = true

-- The poll reports what the phase waits for.
abbrev pub Wakes : ServerTestPhase → Interest → Type 0
Wakes p i = (if receives p then reports_read i else reports_write i) ≡ true

-- What a handler that runs in phase `p`, with the stream registered for `i`, may do. An error other
-- than `WouldBlock` and a panic end the connection.
abbrev pub Keeps : ServerTestPhase → Interest → Outcome TestState → Type 0
Keeps p i (ok n t) =
    ((p ⟶ t.measurement_state) ⊎ (t.measurement_state ≡ p))
    × Wakes t.measurement_state t.stream.interest
Keeps p i (err would_block t) = (t.measurement_state ≡ p) × (t.stream.interest ≡ i)
Keeps p i (err e t) = Unit
Keeps p i (panic t) = Unit

-- A handler that stays in its phase, with its registration, still waits for what the poll reports.
pub still_awake : {p q : ServerTestPhase} {i j : Interest} → Wakes p i → q ≡ p → j ≡ i → Wakes q j
still_awake w e f = rw (e, f) w

pub if_elim {ℓ κ} :
    {A : Type ℓ} (R : A → Type κ) (b : Bool) {x y : A} → R x → R y → R (if b then x else y)
if_elim R true h k = h
if_elim R false h k = k

module _ (p : ServerTestPhase) (i : Interest) where
  pub err-Keeps :
      (e : ErrorKind) (t : TestState)
      → t.measurement_state ≡ p
      → t.stream.interest ≡ i
      → Keeps p i (err e t)
  err-Keeps would_block t h k = (h, k)
  err-Keeps timed_out t h k = tt
  err-Keeps unexpected_eof t h k = tt
  err-Keeps other t h k = tt

  pub enter-Keeps :
      {next : ServerTestPhase} (j : Interest) (n : ℕ) (t : TestState)
      → p ⟶ next
      → Wakes next j
      → Keeps p i (enter next j n t)
  unfolding enter then_stream
  enter-Keeps {next} j n t e w = go t.stream.registrations
    where
      go :
          (rs : List Registration)
          → Keeps p i (
              then_stream
                (record t { measurement_state = next })
                (reregister_by rs j t.stream)
                (λ u. ok n u))
      go [] = (inl e, w)
      go (registered ∷ rs) = (inl e, w)
      go (refused ∷ rs) = tt

  pub flush-Keeps :
      (t : TestState) (k : TestState → Outcome TestState)
      → t.measurement_state ≡ p
      → t.stream.interest ≡ i
      → ((u : Stream) → Keeps p i (k (record t { stream = u })))
      → Keeps p i (then_stream t (flush t.stream) k)
  unfolding flush then_stream
  flush-Keeps t k e f h = go t.stream.flushes
    where
      go : (fs : List Flush) → Keeps p i (then_stream t (flush_by fs t.stream) k)
      go [] = h _
      go (flushed ∷ fs) = h _
      go (flush_fails x ∷ fs) = err-Keeps x _ e f

  pub unwrap-Keeps {ℓ} :
      {A : Type ℓ} (o : Option A) (s : TestState) (k : A → Outcome TestState)
      → ((a : A) → Keeps p i (k a))
      → Keeps p i (unwrap o s k)
  unfolding unwrap
  unwrap-Keeps none s k h = tt
  unwrap-Keeps (some a) s k h = h a

  pub written-Keeps :
      (s : TestState) (z : ZeroWrite) (part : ℕ → Option Bytes) (len : ℕ)
      (k : ℕ → TestState → Outcome TestState)
      → s.measurement_state ≡ p
      → s.stream.interest ≡ i
      → ((n : ℕ) (c : Cursor)
          → Kept s.stream c.stream
          → Keeps p i (k n (record s { stream = c.stream; write_pos = c.pos })))
      → Keeps p i (
          then_written s
            (write_loop z part len s.stream.writes
              (record { stream = s.stream; pos = s.write_pos }))
            k)
  unfolding then_written
  written-Keeps s z part len k e f h = go _ (write_loop-Kept z part len s.stream.writes _)
    where
      go : (o : Outcome Cursor) → Kept s.stream (final o).stream → Keeps p i (then_written s o k)
      go (ok n c) g = h n c g
      go (err x c) g = err-Keeps x _ e (g.0 ∙ f)
      go (panic c) g = tt

  pub read-Keeps :
      (s : TestState) (o : Outcome Reader) (k : ℕ → TestState → Outcome TestState)
      → s.measurement_state ≡ p
      → s.stream.interest ≡ i
      → Kept s.stream (final o).stream
      → ((n : ℕ) (r : Reader)
          → Kept s.stream r.stream
          → Keeps p i
              (k n (record s { stream = r.stream; read_buffer = r.buffer; read_pos = r.pos })))
      → Keeps p i (then_read s o k)
  unfolding then_read
  read-Keeps s (ok n r) k e f g h = h n r g
  read-Keeps s (err x r) k e f g h = err-Keeps x _ e (g.0 ∙ f)
  read-Keeps s (panic r) k e f g h = tt
