-- ===== src/Client/GetTime.antt =====
-- The client's timed download (src/client/handlers/get_time.rs).
use nettest.Common.{
  ℕ, ◌+◌, ◌/◌, ◌++◌, ◌==◌, ◌&&◌, if◌then◌else◌, Option, none, some, List, [], ◌∷◌, Bytes, length,
  take, codes, contains,
}
use nettest.Net.{Outcome, Reader, Flow, ok, again, stop, readable, writable, is_some}
use nettest.Client.{
  MeasurementState, u64, elapsed, enter, fill, write_to, read_to, chunk_loop, resize, unwrap,
  unwrap_flow, accept_getchunks, get_time_receive_chunk, get_time_send_ok, get_time_receive_time,
  get_time_completed,
}
use nettest.Client.GetChunks.{ok_command, last_received}
use nettest.Text.{format_u64, parse_u64, words}

abbrev pub test_duration_ns : ℕ
test_duration_ns = 10000000000

unfoldable pub handle_get_time_send_ok : MeasurementState → Outcome MeasurementState
handle_get_time_send_ok s0 =
    write_to (length ok_command) (fill ok_command s0)
      (λ n t. enter get_time_receive_time readable n (record t { write_pos = 0; read_pos = 0 }))

-- `format!("GETTIME {} {}\n", TEST_DURATION_NS / 1_000_000_000, chunk_size)`.
unfoldable pub time_command : ℕ → Bytes
time_command size =
    codes "GETTIME "
    ++ (format_u64 (test_duration_ns / 1000000000)
        ++ (codes " " ++ (format_u64 size ++ codes "\n")))

unfoldable pub handle_get_time_send_command : MeasurementState → Outcome MeasurementState
handle_get_time_send_command s0 =
    let command = time_command s0.chunk_size in
    write_to (length command) (fill command s0) (λ n t.
      enter get_time_receive_chunk readable n (record t {
        write_pos = 0;
        phase_start_time = some t.stream.now;
        chunk_buffer = resize t.chunk_size t.chunk_buffer;
      }))

-- `download_measurements.push_back((elapsed as u64, bytes_received))`.
abbrev pub record_download : ℕ → MeasurementState → MeasurementState
record_download since s = record s {
  download_measurements = s.download_measurements ++ (u64 (elapsed s since), s.bytes_received) ∷ [];
}

-- Every complete chunk is counted and recorded; the last byte 0xFF ends the phase.
unfoldable pub download_round : ℕ → MeasurementState → Flow MeasurementState
download_round n s0 =
    let s = record s0 { read_pos = s0.read_pos + n } in
    let t = record s { bytes_received = u64 (s.bytes_received + s.chunk_size) } in
    if s.read_pos == s.chunk_size
    then unwrap_flow t.phase_start_time t (λ since.
      let u = record_download since t in
      unwrap_flow (last_received u) u (λ b.
        if b == 0xFF
        then stop (enter get_time_send_ok writable n u)
        else again (record u { read_pos = 0 })))
    else again s

unfoldable pub handle_get_time_receive_chunk : MeasurementState → Outcome MeasurementState
handle_get_time_receive_chunk = chunk_loop download_round

abbrev second_word : List Bytes → Option Bytes
second_word [] = none
second_word (p ∷ []) = none
second_word (p ∷ q ∷ ps) = some q

abbrev parse_word : Option Bytes → Option ℕ
parse_word none = none
parse_word (some w) = parse_u64 w

-- The second word of the text, as a number.
unfoldable pub reported_time : Bytes → Option ℕ
unfolding words parse_u64
reported_time s = parse_word (second_word (words s))

unfoldable pub until_report : ℕ → Reader → Flow Reader
unfolding reported_time
until_report n r =
    let moved = record r { pos = r.pos + n } in
    let text = take moved.pos moved.buffer in
    if contains accept_getchunks text && is_some (reported_time text)
    then stop (ok n moved)
    else again moved

unfoldable pub handle_get_time_receive_time : MeasurementState → Outcome MeasurementState
handle_get_time_receive_time s = read_to until_report s (λ n t.
    unwrap (reported_time (take t.read_pos t.read_buffer)) t (λ time.
      enter get_time_completed writable n
        (record t { download_time = some time; phase_start_time = none })))
