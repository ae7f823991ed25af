-- ===== src/Server/Put.antt =====
-- The upload with a report for each chunk (src/mioserver/handlers/put.rs).
pub mod Counts
use nettest.Common.{
  ℕ, ◌+◌, ◌-◌, ◌++◌, ◌==◌, if◌then◌else◌, Option, none, some, Bytes, length, codes, replicate,
  get_elem?,
}
use nettest.Net.{Outcome, Flow, err, again, stop, other, is_eof, readable, writable, write_loop}
use nettest.Server.{
  TestState, enter, fill, write_to, elapsed, unwrap, u64, chunk_loop, put_receive_chunk,
  put_send_bytes, put_send_time, accept_command_send,
}
use nettest.Server.Greeting.{ok_line}
use nettest.Server.GetChunks.{time_line}
use nettest.Server.GetTime.{start_clock}
use nettest.Text.{format_u64}

unfoldable pub handle_put_send_ok : TestState → Outcome TestState
handle_put_send_ok s0 =
    let s1 = fill ok_line s0 in
    let s = start_clock s1.clock s1 in
    write_to is_eof s.write_buffer (length ok_line) s (λ n t.
      enter put_receive_chunk readable n
        (record t { write_pos = 0; read_pos = 0; chunk_buffer = replicate t.chunk_size 0 }))

-- `format!("TIME {} BYTES {}\n", time_ns, total_bytes)`.
unfoldable pub bytes_line : ℕ → ℕ → Bytes
bytes_line t b =
    codes "TIME " ++ (format_u64 t ++ (codes " BYTES " ++ (format_u64 b ++ codes "\n")))

-- `state.chunk_buffer[state.read_pos - 1]`.
abbrev pub last_received : TestState → Option ℕ
last_received s = if s.read_pos == 0 then none else get_elem? s.chunk_buffer (s.read_pos - 1)

unfoldable pub handle_put_send_bytes : TestState → Outcome TestState
handle_put_send_bytes s0 = unwrap s0.time_ns s0 (λ time.
    let line = bytes_line time s0.total_bytes in
    let s = fill line s0 in
    write_to is_eof s.write_buffer (length line) s (λ n t. unwrap (last_received t) t (λ b.
      if b == 0xFF
      then enter put_send_time writable n (record t { write_pos = 0 })
      else enter put_receive_chunk readable n (record t { read_pos = 0; write_pos = 0 }))))

-- A round behind a read: a chunk is complete when the position reaches its size.
unfoldable pub put_round : ℕ → TestState → Flow TestState
put_round n s0 =
    let s = record s0 { read_pos = s0.read_pos + n; total_bytes = u64 (s0.total_bytes + n) } in
    let done =
      unwrap s.clock (record s { measurement_state = put_send_bytes })
        (λ since.
          enter put_send_bytes writable n (record s { time_ns = some (elapsed s since) })) in
    if n == 0
    then stop (err other s0)
    else if s.read_pos == s.chunk_size
    then stop done
    else again s

unfoldable pub handle_put_receive_chunk : TestState → Outcome TestState
handle_put_receive_chunk = chunk_loop put_round

unfoldable pub handle_put_send_time : TestState → Outcome TestState
handle_put_send_time s0 = unwrap s0.time_ns s0 (λ time.
    let line = time_line time in
    let s = fill line s0 in
    write_to is_eof s.write_buffer (length line) s
      (λ n t. enter accept_command_send writable n (record t { write_pos = 0; read_pos = 0 })))
