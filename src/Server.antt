-- ===== src/Server.antt =====
-- The measurement server's connection (src/mioserver/server.rs, src/mioserver/server_test_phase.rs,
-- src/config/constants.rs) and the steps that its handlers share.
--
-- `TestState` leaves out `read_bytes` and `put_duration`, which no handler touches, and
-- `last_active`, which only the worker does.
pub mod Greeting
pub mod Command
pub mod GetChunks
pub mod GetTime
pub mod Ping
pub mod Put
pub mod PutNoResult
pub mod PutTimeResult
pub mod Dispatch
pub mod Event
pub mod Handshake
pub mod Worker
pub mod Sending
pub mod Protocol
use nettest.Common.{
  ℕ, ◌+◌, ◌-◌, ◌*◌, ◌%◌, ◌^◌, Bool, List, [], ◌++◌, ◌==◌, if◌then◌else◌, Option, none, some, Bytes,
  length, drop, splice, slice?, replicate, codes, leb,
}
pub use nettest.Chunks.{min_chunk_size, max_chunk_size}
use nettest.Net.{
  Outcome, ok, err, panic, Stream, Reader, Cursor, Interest, ZeroWrite, Flow, ReadCall, read,
  reregister, write_loop, read_loop, io_loop,
}

-- `ServerTestPhase`.
pub data ServerTestPhase : Type 0 where
  greeting_receive_connection_type greeting_send_version greeting_send_accept_token
        greeting_receive_token greeting_send_ok greeting_send_chunksize :
      ServerTestPhase
  accept_token_quit accept_command_receive accept_command_send : ServerTestPhase
  get_chunk_send_ok get_chunk_send_chunk get_chunks_receive_ok get_chunks_send_chunks_last
        get_chunks_send_time :
      ServerTestPhase
  pong_send ping_receive_ok ping_send_time : ServerTestPhase
  get_time_send_chunk get_time_send_last_chunk get_time_receive_ok get_time_send_time :
      ServerTestPhase
  put_no_result_send_ok put_no_result_receive_chunk put_no_result_send_time : ServerTestPhase
  put_send_ok put_receive_chunk put_send_bytes put_send_time : ServerTestPhase
  put_time_result_send_ok put_time_result_receive_chunk put_time_result_send_time_result :
      ServerTestPhase

pub record TestState : Type 0 where
  pub token : ℕ
  pub stream : Stream
  pub measurement_state : ServerTestPhase
  pub read_buffer : Bytes
  pub write_buffer : Bytes
  pub read_pos : ℕ
  pub total_bytes : ℕ
  pub write_pos : ℕ
  pub num_chunks : ℕ
  pub chunk_size : ℕ
  pub processed_chunks : ℕ
  pub clock : Option ℕ
  pub time_ns : Option ℕ
  pub duration : ℕ
  pub chunk_buffer : Bytes
  pub chunk : Option Bytes
  pub terminal_chunk : Option Bytes
  pub bytes_received : List (ℕ × ℕ)

-- A `u64` or `usize` sum in a release build.
abbrev pub u64 : ℕ → ℕ
u64 n = n % 2 ^ 64

-- `clock.elapsed().as_nanos()`: 0 if the clock lies ahead.
abbrev pub elapsed : TestState → ℕ → ℕ
elapsed s t = s.stream.now - t

-- `e?` for a call on the stream, and what follows it.
unfoldable pub then_stream :
    TestState → Outcome Stream → (TestState → Outcome TestState) → Outcome TestState
then_stream s (ok n t) k = k (record s { stream = t })
then_stream s (err e t) k = err e (record s { stream = t })
then_stream s (panic t) k = panic (record s { stream = t })

-- `state.stream.reregister(poll, state.token, i)?; return Ok(n)`.
unfoldable pub reregister_with : Interest → ℕ → TestState → Outcome TestState
unfolding reregister
reregister_with i n s = then_stream s (reregister i s.stream) (λ t. ok n t)

-- The phase is set before the stream is registered again.
unfoldable pub enter : ServerTestPhase → Interest → ℕ → TestState → Outcome TestState
unfolding reregister_with
enter p i n s = reregister_with i n (record s { measurement_state = p })

-- `if state.write_pos == 0 { state.write_buffer[..m.len()].copy_from_slice(m) }`. Every message
-- that a handler puts there is far shorter than the buffer's 8192 bytes.
abbrev pub fill : Bytes → TestState → TestState
fill m s = record s {
  write_buffer = if s.write_pos == 0 then splice 0 m s.write_buffer else s.write_buffer;
}

-- The loop that writes `buf[state.write_pos..len]`, and what follows it on success.
unfoldable pub then_written :
    TestState → Outcome Cursor → (ℕ → TestState → Outcome TestState) → Outcome TestState
then_written s (ok n c) k = k n (record s { stream = c.stream; write_pos = c.pos })
then_written s (err e c) k = err e (record s { stream = c.stream; write_pos = c.pos })
then_written s (panic c) k = panic (record s { stream = c.stream; write_pos = c.pos })

abbrev pub write_to :
    ZeroWrite → Bytes → ℕ → TestState → (ℕ → TestState → Outcome TestState) → Outcome TestState
write_to z buf len s k =
    then_written s
      (write_loop z (λ p. slice? p len buf) len s.stream.writes
        (record { stream = s.stream; pos = s.write_pos }))
      k

-- A loop that reads into `state.read_buffer`, and what follows it on success.
unfoldable pub then_read :
    TestState → Outcome Reader → (ℕ → TestState → Outcome TestState) → Outcome TestState
then_read s (ok n r) k =
    k n (record s { stream = r.stream; read_buffer = r.buffer; read_pos = r.pos })
then_read s (err e r) k =
    err e (record s { stream = r.stream; read_buffer = r.buffer; read_pos = r.pos })
then_read s (panic r) k =
    panic (record s { stream = r.stream; read_buffer = r.buffer; read_pos = r.pos })

abbrev pub read_to :
    (Reader → ℕ)
    → (ℕ → Reader → Flow Reader)
    → TestState
    → (ℕ → TestState → Outcome TestState)
    → Outcome TestState
read_to at body s k =
    then_read s
      (read_loop at body s.stream.reads
        (record { stream = s.stream; buffer = s.read_buffer; pos = s.read_pos }))
      k

-- One read into `state.chunk_buffer[state.read_pos..]`.
abbrev pub lift_chunk : TestState → Outcome Reader → Outcome TestState
lift_chunk s (ok n r) = ok n (record s { stream = r.stream; chunk_buffer = r.buffer })
lift_chunk s (err e r) = err e (record s { stream = r.stream; chunk_buffer = r.buffer })
lift_chunk s (panic r) = panic (record s { stream = r.stream; chunk_buffer = r.buffer })

unfoldable pub read_chunk : ReadCall → TestState → Outcome TestState
unfolding read
read_chunk e s =
    lift_chunk s
      (read s.read_pos e (record { stream = s.stream; buffer = s.chunk_buffer; pos = s.read_pos }))

abbrev pub pop_reads : List ReadCall → TestState → TestState
pop_reads rs s = record s { stream = record s.stream { reads = rs } }

-- `loop { let n = state.stream.read(&mut state.chunk_buffer[state.read_pos..])?; body }`.
unfoldable pub chunk_loop : (ℕ → TestState → Flow TestState) → TestState → Outcome TestState
unfolding io_loop read_chunk
chunk_loop body s =
    io_loop (λ t. leb t.read_pos (length t.chunk_buffer)) pop_reads read_chunk body s.stream.reads s

-- `Option::unwrap`, and what follows it.
unfoldable pub unwrap {ℓ} :
    {A : Type ℓ} → Option A → TestState → (A → Outcome TestState) → Outcome TestState
unwrap none s k = panic s
unwrap (some a) s k = k a
