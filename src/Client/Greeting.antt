-- ===== src/Client/Greeting.antt =====
-- The client's greeting (src/client/handlers/greeting.rs).
use nettest.Common.{
  ℕ, ◌+◌, ◌++◌, Bool, true, false, ◌==◌, ◌&&◌, ltb, if◌then◌else◌, Bytes, length, codes, ends_at,
  slice?,
}
use nettest.Net.{
  Outcome, Stream, Reader, Cursor, Flow, StreamKind, web_socket, web_socket_tls, ok, err, panic,
  again, stop, readable, writable, reregister, io_loop, is_some, pop_write, write_part,
}
use nettest.Client.{
  MeasurementState, enter, reregister_then, fill, then_written, write_ahead, read_to,
  accept_getchunks, greeting_send_token, greeting_receive_greeting, greeting_receive_response,
  greeting_completed,
}
use nettest.Text.{format_u64}

-- `RMBT_UPGRADE_REQUEST`, which `get_greeting` gives for every kind of stream.
abbrev pub greeting : Bytes
greeting =
    codes
      "GET /rmbt HTTP/1.1 \r\nConnection: Upgrade \r\nUpgrade: RMBT\r\nRMBT-Version: 1.2.0\r\n\r\n"

abbrev pub is_web_socket_client : StreamKind → Bool
is_web_socket_client web_socket = true
is_web_socket_client web_socket_tls = true
is_web_socket_client _ = false

unfoldable pub handle_greeting_send_connection_type : MeasurementState → Outcome MeasurementState
handle_greeting_send_connection_type s0 =
    let s = fill greeting s0 in
    if is_web_socket_client s.stream.kind
    then reregister_then writable 1 (λ t. record t { read_pos = 0 })
        (record s { phase = greeting_send_token })
    else write_ahead (length greeting) s (λ n t.
      reregister_then readable 1
        (λ u. record u { phase = greeting_receive_greeting; write_pos = 0; read_pos = 0 }) t)

-- `format!("TOKEN {}\n", state.token.0)`.
unfoldable pub token_command : ℕ → Bytes
unfolding format_u64
token_command t = codes "TOKEN " ++ (format_u64 t ++ codes "\n")

-- A round that does not complete the message registers the stream once more.
abbrev registered_again : ℕ → Outcome Stream → Flow Cursor
registered_again p (ok n t) = again (record { stream = t; pos = p })
registered_again p (err e t) = stop (err e (record { stream = t; pos = p }))
registered_again p (panic t) = stop (panic (record { stream = t; pos = p }))

unfoldable pub token_round : ℕ → ℕ → Cursor → Flow Cursor
token_round len n c =
    let moved = record c { pos = c.pos + n } in
    if moved.pos == len
    then stop (ok n moved)
    else registered_again moved.pos (reregister writable moved.stream)

unfoldable pub handle_greeting_send_token : MeasurementState → Outcome MeasurementState
handle_greeting_send_token s0 =
    let command = token_command s0.token in
    let s = fill command s0 in
    let part = λ (p : ℕ). slice? p (p + length command) s.write_buffer in
    then_written s
      (io_loop (λ c. is_some (part c.pos)) pop_write (write_part part)
        (token_round (length command)) s.stream.writes
        (record { stream = s.stream; pos = s.write_pos }))
      (λ n t.
        reregister_then readable n (λ u. record u { phase = greeting_receive_response })
          (record t { write_pos = 0; read_pos = 0 }))

-- A read of no byte does not end the loop.
unfoldable pub until_received : Bytes → ℕ → Reader → Flow Reader
until_received end n r =
    let moved = record r { pos = r.pos + n } in
    if ltb 0 n && ends_at end moved.buffer moved.pos then stop (ok n moved) else again moved

unfoldable pub handle_greeting_receive_greeting : MeasurementState → Outcome MeasurementState
handle_greeting_receive_greeting s =
    read_to (until_received (codes "ACCEPT TOKEN QUIT\n")) s
      (λ n t. enter greeting_send_token writable n (record t { read_pos = 0 }))

unfoldable pub handle_greeting_receive_response : MeasurementState → Outcome MeasurementState
handle_greeting_receive_response s = read_to (until_received accept_getchunks) s (λ n t.
    reregister_then writable n (λ u. record u { read_pos = 0 })
      (record t { phase = greeting_completed }))
