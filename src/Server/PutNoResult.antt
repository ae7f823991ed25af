-- ===== src/Server/PutNoResult.antt =====
-- The upload with one report at its end (src/mioserver/handlers/putnoresult.rs).
use nettest.Common.{ℕ, ◌+◌, ◌==◌, if◌then◌else◌, Option, none, some, length, replicate}
use nettest.Net.{Outcome, Flow, err, panic, again, stop, other, is_eof, readable, writable}
use nettest.Server.{
  TestState, enter, fill, write_to, elapsed, unwrap, chunk_loop, put_no_result_receive_chunk,
  put_no_result_send_time, accept_command_send,
}
use nettest.Server.Greeting.{ok_line}
use nettest.Server.GetChunks.{time_line}
use nettest.Server.Put.{last_received}

unfoldable pub handle_put_no_result_send_ok : TestState → Outcome TestState
handle_put_no_result_send_ok s0 =
    let s = fill ok_line s0 in
    write_to is_eof s.write_buffer (length ok_line) s (λ n t.
      enter put_no_result_receive_chunk readable n (record t {
        write_pos = 0;
        read_pos = 0;
        chunk_buffer = replicate t.chunk_size 0;
        clock = some t.stream.now;
      }))

-- What the last byte of a complete chunk says: 0xFF ends the upload, 0x00 goes on with it.
unfoldable pub no_result_chunk : ℕ → ℕ → TestState → Flow TestState
no_result_chunk b n s =
    let done = unwrap s.clock s (λ since.
      enter put_no_result_send_time writable n
        (record s { time_ns = some (elapsed s since); read_pos = 0 })) in
    if b == 0xFF
    then stop done
    else if b == 0x00
    then again (record s { read_pos = 0 })
    else stop (err other s)

abbrev pub with_last : Option ℕ → TestState → (ℕ → Flow TestState) → Flow TestState
with_last none s k = stop (panic s)
with_last (some b) s k = k b

unfoldable pub no_result_round : ℕ → TestState → Flow TestState
no_result_round n s0 =
    let s = record s0 { read_pos = s0.read_pos + n } in
    if n == 0
    then stop (err other s0)
    else if s.read_pos == s.chunk_size
    then with_last (last_received s) s (λ b. no_result_chunk b n s)
    else again s

unfoldable pub handle_put_no_result_receive_chunk : TestState → Outcome TestState
handle_put_no_result_receive_chunk = chunk_loop no_result_round

unfoldable pub handle_put_no_result_send_time : TestState → Outcome TestState
handle_put_no_result_send_time s0 = unwrap s0.time_ns s0 (λ time.
    let line = time_line time in
    let s = fill line s0 in
    write_to is_eof s.write_buffer (length line) s
      (λ n t. enter accept_command_send writable n (record t { write_pos = 0; read_pos = 0 })))
