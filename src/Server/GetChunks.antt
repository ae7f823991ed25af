-- ===== src/Server/GetChunks.antt =====
-- The chunks of the pre-download (src/mioserver/handlers/getchunks.rs).
pub mod Confirmation
use nettest.Common.{
  ℕ, ◌+◌, ◌-◌, ◌^◌, true, false, ◌++◌, List, ◌==◌, leb, if◌then◌else◌, Option, none, some, Bytes,
  length, take, slice, codes, bytes_eq,
}
use nettest.Net.{
  Outcome, Reader, Flow, Stream, WriteCall, ok, err, panic, again, stop, ignored, is_zero, readable,
  writable, write, write_loop, read_loop, io_loop,
}
use nettest.Server.{
  TestState, enter, fill, write_to, then_written, read_to, u64, elapsed, unwrap,
  get_chunk_send_chunk, get_chunks_send_chunks_last, get_chunks_receive_ok, get_chunks_send_time,
  accept_command_send,
}
use nettest.Chunks.{Filler, storage_get}
use nettest.Server.Greeting.{ok_line}
use nettest.Text.{format_u64}

unfoldable pub handle_get_chunks_send_ok : TestState → Outcome TestState
handle_get_chunks_send_ok s0 =
    let s = fill ok_line s0 in
    write_to ignored s.write_buffer 3 s
      (λ n t. enter get_chunk_send_chunk writable n (record t { write_pos = 0 }))

abbrev pub pop_writes : List WriteCall → TestState → TestState
pop_writes ws s = record s { stream = record s.stream { writes = ws } }

abbrev pub lift_stream : TestState → Outcome Stream → Outcome TestState
lift_stream s (ok n t) = ok n (record s { stream = t })
lift_stream s (err e t) = err e (record s { stream = t })
lift_stream s (panic t) = panic (record s { stream = t })

-- `loop { let n = state.stream.write(&chunk[state.write_pos..])?; body }`.
unfoldable pub send_loop : Bytes → (ℕ → TestState → Flow TestState) → TestState → Outcome TestState
send_loop chunk body s =
    io_loop (λ t. leb t.write_pos (length chunk)) pop_writes
      (λ w t. lift_stream t (write (slice t.write_pos (length chunk) chunk) w t.stream)) body
      s.stream.writes s

-- `chunk_num - 1` on usize, which wraps at 0 in a release build.
abbrev pub last_index : ℕ → ℕ
last_index num = u64 (num + 2 ^ 64 - 1)

abbrev enter_last : ℕ → TestState → Outcome TestState
enter_last n s = enter get_chunks_send_chunks_last writable n s

-- A round behind the write: the next chunk, or the last one.
unfoldable pub chunk_round : ℕ → ℕ → TestState → Flow TestState
chunk_round len n s0 =
    let s = record s0 { write_pos = s0.write_pos + n } in
    let t = record s { processed_chunks = s.processed_chunks + 1; write_pos = 0 } in
    if n == 0
    then stop (ok 0 s0)
    else if s.write_pos == len
    then if t.processed_chunks == last_index t.num_chunks then stop (enter_last n t) else again t
    else again s

-- `if state.clock.is_none() { state.write_pos = 0; state.clock = Some(Instant::now()) }`.
abbrev pub start_chunks : Option ℕ → TestState → TestState
start_chunks none s = record s { write_pos = 0; clock = some s.stream.now }
start_chunks (some t) s = s

module _ (random : Filler) where
  unfoldable pub handle_get_chunks_send_chunks : TestState → Outcome TestState
  handle_get_chunks_send_chunks s0 =
      let s = start_chunks s0.clock s0 in
      unwrap (storage_get random false s.chunk_size) s (λ chunk.
        if s.processed_chunks == last_index s.num_chunks
        then enter_last 1 s
        else send_loop chunk (chunk_round (length chunk)) s)

  -- A write of no byte returns `Ok(0)`.
  unfoldable pub handle_get_chunks_send_chunks_last : TestState → Outcome TestState
  handle_get_chunks_send_chunks_last s = unwrap (storage_get random true s.chunk_size) s (λ chunk.
      write_to is_zero chunk (length chunk) s (λ n t.
        if n == 0
        then ok 0 t
        else enter get_chunks_receive_ok readable n
            (record t { write_pos = 0; processed_chunks = 0 })))

-- Every read goes to the front of the buffer, while the position counts all bytes read.
unfoldable pub until_ok : ℕ → Reader → Flow Reader
until_ok n r =
    let moved = record r { pos = r.pos + n } in
    if leb moved.pos (length moved.buffer)
    then (if bytes_eq (take moved.pos moved.buffer) ok_line then stop (ok n moved) else again moved)
    else stop (panic moved)

unfoldable pub handle_get_chunks_receive_ok : TestState → Outcome TestState
handle_get_chunks_receive_ok s0 =
    read_to (λ r. 0) until_ok s0
      (λ n t.
        let s = record t { measurement_state = get_chunks_send_time } in
        unwrap s.clock s (λ since.
          enter get_chunks_send_time writable n
            (record s { time_ns = some (elapsed s since); read_pos = 0 })))

-- `format!("TIME {}\n", time_ns)`.
unfoldable pub time_line : ℕ → Bytes
time_line t = codes "TIME " ++ (format_u64 t ++ codes "\n")

-- Every round offers the whole line, whatever was written of it before.
unfoldable pub handle_get_chunks_send_time : TestState → Outcome TestState
handle_get_chunks_send_time s0 = unwrap s0.time_ns s0 (λ time.
    let s = record s0 { clock = none } in
    let line = time_line time in
    then_written s
      (write_loop is_zero (λ p. some line) (length line) s.stream.writes
        (record { stream = s.stream; pos = s.write_pos }))
      (λ n t.
        if n == 0
        then ok 0 t
        else enter accept_command_send writable n (record t { write_pos = 0 })))
