-- ===== src/Server/Ping.antt =====
-- The ping exchange (src/mioserver/handlers/ping.rs).
use nettest.Common.{ℕ, ◌+◌, ◌==◌, if◌then◌else◌, Bytes, length, codes, bytes_eq, take, some, none}
use nettest.Net.{
  Outcome, Reader, Flow, ok, err, again, stop, unexpected_eof, ignored, readable, writable,
  reregister,
}
use nettest.Server.{
  TestState, enter, fill, write_to, read_to, then_stream, elapsed, unwrap, ping_receive_ok,
  ping_send_time, accept_command_send,
}
use nettest.Server.Greeting.{ok_line}
use nettest.Server.GetChunks.{time_line}
use nettest.Server.GetTime.{start_clock}

abbrev pub pong : Bytes
pong = codes "PONG\n"

-- The stream is registered again before the phase and the position are set.
unfoldable pub handle_pong_send : TestState → Outcome TestState
handle_pong_send s0 =
    let s1 = fill pong s0 in
    let s = start_clock s1.clock s1 in
    write_to ignored s.write_buffer (length pong) s (λ n t.
      then_stream t (reregister readable t.stream)
        (λ u. ok n (record u { write_pos = 0; measurement_state = ping_receive_ok })))

-- Every read goes to the front of the buffer, whose first bytes are tested.
unfoldable pub until_ok_or_eof : ℕ → Reader → Flow Reader
until_ok_or_eof n r =
    let moved = record r { pos = r.pos + n } in
    if n == 0
    then stop (err unexpected_eof r)
    else if bytes_eq (take (length ok_line) moved.buffer) ok_line
    then stop (ok n moved)
    else again moved

unfoldable pub handle_ping_receive_ok : TestState → Outcome TestState
handle_ping_receive_ok s0 =
    read_to (λ r. 0) until_ok_or_eof s0
      (λ n t. unwrap t.clock t (λ since.
        enter ping_send_time writable n
          (record t { clock = none; time_ns = some (elapsed t since); read_pos = 0 })))

unfoldable pub handle_ping_send_time : TestState → Outcome TestState
handle_ping_send_time s0 = unwrap s0.time_ns s0 (λ time.
    let line = time_line time in
    let s = fill line s0 in
    write_to ignored s.write_buffer (length line) s
      (λ n t. enter accept_command_send writable n (record t { write_pos = 0; read_pos = 0 })))
