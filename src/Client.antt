-- ===== src/Client.antt =====
-- The measurement client's connection (src/client/state.rs) and the steps that its handlers share.
--
-- `MeasurementState` leaves out `upload_speed` and `cursor`, which nothing sets or reads.
pub mod Greeting
pub mod GetChunks
pub mod GetTime
pub mod Ping
pub mod PutTimeResult
pub mod Calculator
pub mod Dispatch
pub mod Phases
use nettest.Common.{
  ℕ, ◌+◌, ◌-◌, ◌%◌, ◌^◌, Bool, List, ◌++◌, ◌==◌, if◌then◌else◌, Option, none, some, Bytes, length,
  take, splice, slice, slice?, replicate, leb, codes,
}
use nettest.Net.{
  Outcome, ok, err, panic, Stream, Reader, Cursor, Interest, ZeroWrite, Flow, ReadCall, WriteCall,
  read, write, reregister, write_loop, read_loop, io_loop, ignored,
}

-- `TestPhase`.
pub data TestPhase : Type 0 where
  greeting_send_connection_type greeting_send_token greeting_receive_greeting
        greeting_receive_response greeting_completed :
      TestPhase
  get_chunks_send_chunks_command get_chunks_receive_chunk get_chunks_send_ok get_chunks_receive_time
        get_chunks_completed :
      TestPhase
  ping_send_ping ping_receive_pong ping_send_ok ping_receive_time ping_completed : TestPhase
  get_time_send_command get_time_receive_chunk get_time_send_ok get_time_receive_time
        get_time_completed :
      TestPhase
  perf_send_command perf_receive_ok perf_send_chunks perf_send_last_chunk perf_receive_time
        perf_completed :
      TestPhase

pub record MeasurementState : Type 0 where
  pub token : ℕ
  pub phase : TestPhase
  pub upload_bytes : Option ℕ
  pub upload_time : Option ℕ
  pub download_time : Option ℕ
  pub chunk_size : ℕ
  pub ping_median : Option ℕ
  pub phase_start_time : Option ℕ
  pub read_buffer : Bytes
  pub write_buffer : Bytes
  pub read_pos : ℕ
  pub write_pos : ℕ
  pub download_measurements : List (ℕ × ℕ)
  pub upload_measurements : List (ℕ × ℕ)
  pub failed : Bool
  pub stream : Stream
  pub total_chunks : ℕ
  pub chunk_buffer : Bytes
  pub ping_times : List ℕ
  pub time_result : Option ℕ
  pub bytes_received : ℕ
  pub bytes_sent : ℕ
  pub time_result_buffer : Bytes

abbrev pub u64 : ℕ → ℕ
u64 n = n % 2 ^ 64

abbrev pub elapsed : MeasurementState → ℕ → ℕ
elapsed s t = s.stream.now - t

-- `ACCEPT_GETCHUNKS_STRING`.
abbrev pub accept_getchunks : Bytes
accept_getchunks = codes "ACCEPT GETCHUNKS GETTIME PUT PUTNORESULT PING QUIT\n"

unfoldable pub then_stream :
    MeasurementState
    → Outcome Stream
    → (MeasurementState → Outcome MeasurementState)
    → Outcome MeasurementState
then_stream s (ok n t) k = k (record s { stream = t })
then_stream s (err e t) k = err e (record s { stream = t })
then_stream s (panic t) k = panic (record s { stream = t })

-- `state.stream.reregister(poll, state.token, i)?; rest; return Ok(n)`.
unfoldable pub reregister_then :
    Interest
    → ℕ
    → (MeasurementState → MeasurementState)
    → MeasurementState
    → Outcome MeasurementState
unfolding reregister
reregister_then i n rest s = then_stream s (reregister i s.stream) (λ t. ok n (rest t))

-- The phase is set before the stream is registered again.
unfoldable pub enter : TestPhase → Interest → ℕ → MeasurementState → Outcome MeasurementState
unfolding reregister_then
enter p i n s = reregister_then i n (λ t. t) (record s { phase = p })

-- `if state.write_pos == 0 { state.write_buffer[0..m.len()].copy_from_slice(m) }`.
abbrev pub fill : Bytes → MeasurementState → MeasurementState
fill m s = record s {
  write_buffer = if s.write_pos == 0 then splice 0 m s.write_buffer else s.write_buffer;
}

unfoldable pub then_written :
    MeasurementState
    → Outcome Cursor
    → (ℕ → MeasurementState → Outcome MeasurementState)
    → Outcome MeasurementState
then_written s (ok n c) k = k n (record s { stream = c.stream; write_pos = c.pos })
then_written s (err e c) k = err e (record s { stream = c.stream; write_pos = c.pos })
then_written s (panic c) k = panic (record s { stream = c.stream; write_pos = c.pos })

-- The loop that writes the first `len` bytes of the write buffer, `part pos` in a round.
abbrev pub write_parts :
    (ℕ → Option Bytes)
    → ℕ
    → MeasurementState
    → (ℕ → MeasurementState → Outcome MeasurementState)
    → Outcome MeasurementState
write_parts part len s k =
    then_written s
      (write_loop ignored part len s.stream.writes
        (record { stream = s.stream; pos = s.write_pos }))
      k

-- A round offers `write_buffer[write_pos..len]`.
abbrev pub write_to :
    ℕ
    → MeasurementState
    → (ℕ → MeasurementState → Outcome MeasurementState)
    → Outcome MeasurementState
write_to len s k = write_parts (λ p. slice? p len s.write_buffer) len s k

-- A round offers `write_buffer[write_pos..write_pos + len]`, which behind a short write is more than
-- the rest of the message.
abbrev pub write_ahead :
    ℕ
    → MeasurementState
    → (ℕ → MeasurementState → Outcome MeasurementState)
    → Outcome MeasurementState
write_ahead len s k = write_parts (λ p. slice? p (p + len) s.write_buffer) len s k

unfoldable pub then_read :
    MeasurementState
    → Outcome Reader
    → (ℕ → MeasurementState → Outcome MeasurementState)
    → Outcome MeasurementState
then_read s (ok n r) k =
    k n (record s { stream = r.stream; read_buffer = r.buffer; read_pos = r.pos })
then_read s (err e r) k =
    err e (record s { stream = r.stream; read_buffer = r.buffer; read_pos = r.pos })
then_read s (panic r) k =
    panic (record s { stream = r.stream; read_buffer = r.buffer; read_pos = r.pos })

abbrev pub reader : MeasurementState → Reader
reader s = record { stream = s.stream; buffer = s.read_buffer; pos = s.read_pos }

-- The loop that reads into `read_buffer[read_pos..]`.
abbrev pub read_to :
    (ℕ → Reader → Flow Reader)
    → MeasurementState
    → (ℕ → MeasurementState → Outcome MeasurementState)
    → Outcome MeasurementState
read_to body s k = then_read s (read_loop (λ r. r.pos) body s.stream.reads (reader s)) k

unfoldable pub unwrap {ℓ} :
    {A : Type ℓ}
    → Option A
    → MeasurementState
    → (A → Outcome MeasurementState)
    → Outcome MeasurementState
unwrap none s k = panic s
unwrap (some a) s k = k a

abbrev pub unwrap_flow {ℓ} :
    {A : Type ℓ} → Option A → MeasurementState → (A → Flow MeasurementState) → Flow MeasurementState
unwrap_flow none s k = Flow.stop (panic s)
unwrap_flow (some a) s k = k a

-- `Vec::resize(n, 0)`.
abbrev pub resize : ℕ → Bytes → Bytes
resize n b = take n b ++ replicate (n - length b) 0

abbrev pub lift_chunk : MeasurementState → Outcome Reader → Outcome MeasurementState
lift_chunk s (ok n r) = ok n (record s { stream = r.stream; chunk_buffer = r.buffer })
lift_chunk s (err e r) = err e (record s { stream = r.stream; chunk_buffer = r.buffer })
lift_chunk s (panic r) = panic (record s { stream = r.stream; chunk_buffer = r.buffer })

unfoldable pub read_chunk : ReadCall → MeasurementState → Outcome MeasurementState
unfolding read
read_chunk e s =
    lift_chunk s
      (read s.read_pos e (record { stream = s.stream; buffer = s.chunk_buffer; pos = s.read_pos }))

abbrev pub pop_reads : List ReadCall → MeasurementState → MeasurementState
pop_reads rs s = record s { stream = record s.stream { reads = rs } }

-- `loop { let n = state.stream.read(&mut state.chunk_buffer[state.read_pos..])?; body }`.
unfoldable pub chunk_loop :
    (ℕ → MeasurementState → Flow MeasurementState) → MeasurementState → Outcome MeasurementState
unfolding io_loop read_chunk
chunk_loop body s =
    io_loop (λ t. leb t.read_pos (length t.chunk_buffer)) pop_reads read_chunk body s.stream.reads s

abbrev pub pop_writes : List WriteCall → MeasurementState → MeasurementState
pop_writes ws s = record s { stream = record s.stream { writes = ws } }

abbrev pub lift_stream : MeasurementState → Outcome Stream → Outcome MeasurementState
lift_stream s (ok n t) = ok n (record s { stream = t })
lift_stream s (err e t) = err e (record s { stream = t })
lift_stream s (panic t) = panic (record s { stream = t })

-- `loop { let n = state.stream.write(&buffer[state.write_pos..])?; body }`.
unfoldable pub send_loop :
    Bytes
    → (ℕ → MeasurementState → Flow MeasurementState)
    → MeasurementState
    → Outcome MeasurementState
unfolding io_loop write
send_loop buffer body s =
    io_loop (λ t. leb t.write_pos (length buffer)) pop_writes
      (λ w t. lift_stream t (write (slice t.write_pos (length buffer) buffer) w t.stream)) body
      s.stream.writes s
