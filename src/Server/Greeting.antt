-- ===== src/Server/Greeting.antt =====
-- The greeting (src/mioserver/handlers/greeting_handler.rs).
use nettest.Common.{ℕ, ◌+◌, ◌++◌, ltb, ◌&&◌, if◌then◌else◌, Bytes, length, codes, ends_at}
use nettest.Net.{
  Outcome, Reader, Flow, ok, again, stop, ignored, is_eof, readable, writable, flush, reregister,
}
use nettest.Server.{
  TestState, enter, fill, write_to, read_to, then_stream, min_chunk_size,
  greeting_send_accept_token, greeting_receive_token, greeting_send_ok, greeting_send_chunksize,
  accept_command_send, max_chunk_size,
}
use nettest.Text.{format_u64}

-- Adds what was read to the position, and ends the loop when `test` holds.
unfoldable pub until_end : Bytes → ℕ → Reader → Flow Reader
until_end end n r =
    let moved = record r { pos = r.pos + n } in
    if ends_at end moved.buffer moved.pos then stop (ok n moved) else again moved

unfoldable pub handle_greeting_accep_token_read : TestState → Outcome TestState
handle_greeting_accep_token_read s =
    read_to (λ r. r.pos) (until_end (codes "\r\n\r\n")) s
      (λ n t. enter greeting_send_accept_token writable n (record t { read_pos = 0 }))

abbrev pub version : Bytes
version = codes "RMBTv1.5.0\n"

unfoldable pub handle_greeting_send_version : TestState → Outcome TestState
handle_greeting_send_version s0 =
    let s = fill version s0 in
    write_to is_eof s.write_buffer (length version) s (λ n t.
      let u = record t { write_pos = 0; read_pos = 0 } in
      then_stream u (flush u.stream) (λ v. enter greeting_send_accept_token writable n v))

abbrev pub accept_token : Bytes
accept_token = codes "ACCEPT TOKEN QUIT\n"

unfoldable pub handle_greeting_send_accept_token : TestState → Outcome TestState
handle_greeting_send_accept_token s0 =
    let s = fill accept_token s0 in
    write_to is_eof s.write_buffer (length accept_token) s (λ n t.
      let u = record t { write_pos = 0; read_pos = 0 } in
      then_stream u (flush u.stream) (λ v. enter greeting_receive_token readable n v))

-- A read of no byte does not end the loop.
unfoldable pub until_newline : ℕ → Reader → Flow Reader
until_newline n r =
    let moved = record r { pos = r.pos + n } in
    if ltb 0 n && ends_at (codes "\n") moved.buffer moved.pos
    then stop (ok n moved)
    else again moved

unfoldable pub handle_greeting_receive_token : TestState → Outcome TestState
handle_greeting_receive_token s =
    read_to (λ r. r.pos) until_newline s
      (λ n t.
        let u = record t { measurement_state = greeting_send_ok; read_pos = 0 } in
        then_stream u (reregister writable u.stream) (λ v. ok n v))

abbrev pub ok_line : Bytes
ok_line = codes "OK\n"

unfoldable pub handle_greeting_send_ok : TestState → Outcome TestState
handle_greeting_send_ok s0 =
    let s = fill ok_line s0 in
    write_to ignored s.write_buffer (length ok_line) s
      (λ n t. enter greeting_send_chunksize writable n (record t { write_pos = 0 }))

-- `format!("CHUNKSIZE {} {} {}\n", CHUNK_SIZE, MIN_CHUNK_SIZE, MAX_CHUNK_SIZE)`.
unfoldable pub chunk_size_msg : Bytes
chunk_size_msg =
    codes "CHUNKSIZE "
    ++ (format_u64 4096
        ++ (codes " "
            ++ (format_u64 min_chunk_size
                ++ (codes " " ++ (format_u64 max_chunk_size ++ codes "\n")))))

unfoldable pub handle_greeting_send_chunksize : TestState → Outcome TestState
handle_greeting_send_chunksize s0 =
    let s = fill chunk_size_msg s0 in
    write_to ignored s.write_buffer (length chunk_size_msg) s
      (λ n t. enter accept_command_send writable n (record t { write_pos = 0 }))
