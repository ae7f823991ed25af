-- ===== src/Server/GetTime.antt =====
-- The timed download (src/mioserver/handlers/gettime.rs).
use nettest.Common.{
  ℕ, ◌+◌, ◌*◌, Bool, true, false, ◌==◌, ltb, if◌then◌else◌, Option, none, some, Bytes, length,
}
use nettest.Net.{
  Outcome, Stream, StreamKind, web_socket, Flow, ok, err, panic, again, stop, ignored, both,
  writable, write_loop, flush,
}
use nettest.Server.{
  TestState, enter, then_written, read_to, elapsed, unwrap, write_to, get_time_send_last_chunk,
  get_time_receive_ok, get_time_send_time, accept_command_send,
}
use nettest.Chunks.{Filler, storage_get, get_chunk}
use nettest.Server.GetChunks.{send_loop, until_ok, time_line}

-- `state.stream.return_type() == "WebSocket"`.
abbrev pub is_web_socket : StreamKind → Bool
is_web_socket web_socket = true
is_web_socket _ = false

-- `if … { state.stream.flush().unwrap() }`: a flush that fails is a panic.
unfoldable pub flush_or_panic :
    TestState → Outcome Stream → (TestState → Outcome TestState) → Outcome TestState
flush_or_panic s (ok n t) k = k (record s { stream = t })
flush_or_panic s (err e t) k = panic (record s { stream = t })
flush_or_panic s (panic t) k = panic (record s { stream = t })

unfoldable pub flush_web_socket : TestState → (TestState → Outcome TestState) → Outcome TestState
flush_web_socket s k =
    if is_web_socket s.stream.kind then flush_or_panic s (flush s.stream) k else k s

-- `if state.clock.is_none() { state.clock = Some(Instant::now()) }`.
abbrev pub start_clock : Option ℕ → TestState → TestState
start_clock none s = record s { clock = some s.stream.now }
start_clock (some t) s = s

-- A round behind the write of a plain chunk.
unfoldable pub time_round : Bool → ℕ → ℕ → TestState → Flow TestState
time_round is_last len n s0 =
    let s = record s0 { write_pos = s0.write_pos + n } in
    let t = record s { write_pos = 0 } in
    let last =
      flush_web_socket (record t { measurement_state = get_time_send_last_chunk; read_pos = 0 })
        (λ u. enter get_time_send_last_chunk both n u) in
    if s.write_pos == len then (if is_last then stop last else again t) else again s

-- A chunk that is not in the store is made once, and kept in the state.
abbrev or_kept : Option Bytes → Option Bytes → Option Bytes → Option Bytes
or_kept (some c) kept made = some c
or_kept none (some c) made = some c
or_kept none none made = made

abbrev to_keep : Option Bytes → Option Bytes → Option Bytes → Option Bytes
to_keep (some c) kept made = kept
to_keep none (some c) made = some c
to_keep none none made = made

module _ (random : Filler) where
  unfoldable pub handle_get_time_send_chunk : TestState → Outcome TestState
  handle_get_time_send_chunk s0 =
      let s1 = start_clock s0.clock s0 in
      unwrap s1.clock s1 (λ since.
        let is_last = ltb (s1.duration * 1000000000) (elapsed s1 since) in
        let stored = storage_get random false s1.chunk_size in
        let made = get_chunk random s1.chunk_size false in
        let s = record s1 { chunk = to_keep stored s1.chunk made } in
        unwrap (or_kept stored s1.chunk made) s
          (λ chunk. send_loop chunk (time_round is_last (length chunk)) s))

  unfoldable pub handle_perf_send_last_chunk : TestState → Outcome TestState
  handle_perf_send_last_chunk s1 =
      let stored = storage_get random true s1.chunk_size in
      let made = get_chunk random s1.chunk_size true in
      let s = record s1 { terminal_chunk = to_keep stored s1.terminal_chunk made } in
      unwrap (or_kept stored s1.terminal_chunk made) s (λ chunk.
        write_to ignored chunk (length chunk) s (λ n t.
          flush_web_socket
            (record t { write_pos = 0; measurement_state = get_time_receive_ok; read_pos = 0 })
            (λ u. enter get_time_receive_ok both n u)))

unfoldable pub handle_get_time_receive_ok : TestState → Outcome TestState
handle_get_time_receive_ok s0 =
    read_to (λ r. 0) until_ok s0
      (λ n t.
        let s = record t { measurement_state = get_time_send_time } in
        unwrap s.clock s (λ since.
          enter get_time_send_time writable n
            (record s { time_ns = some (elapsed s since); read_pos = 0 })))

-- Every round offers the whole line, whatever was written of it before.
unfoldable pub handle_get_time_send_time : TestState → Outcome TestState
handle_get_time_send_time s0 = unwrap s0.time_ns s0 (λ time.
    let s = record s0 { clock = none } in
    let line = time_line time in
    then_written s
      (write_loop ignored (λ p. some line) (length line) s.stream.writes
        (record { stream = s.stream; pos = s.write_pos }))
      (λ n t. enter accept_command_send writable n (record t { write_pos = 0 })))
