-- ===== src/Client/PutTimeResult.antt =====
-- The client's upload (src/client/handlers/puttimeresult.rs).
use nettest.Common.{
  ℕ, ◌+◌, ◌++◌, true, false, ◌==◌, leb, if◌then◌else◌, Option, none, some, List, [], ◌∷◌, Bytes,
  length, take, drop, codes, starts_with, ends_at,
}
use nettest.Net.{
  Outcome, Reader, Flow, ReadCall, ok, err, panic, again, stop, readable, writable, io_loop, read,
  read_upto_loop,
}
use nettest.Chunks.{Filler, storage_get}
use nettest.Client.{
  MeasurementState, u64, elapsed, enter, reregister_then, fill, write_to, then_read, reader,
  send_loop, pop_reads, unwrap, perf_receive_ok, perf_send_chunks, perf_send_last_chunk,
  perf_receive_time, perf_completed,
}
use nettest.Text.{format_u64, parse_u64, words}
use nettest.Text.Split.{trim_start_matches, trim_end_matches}

abbrev pub test_duration_ns : ℕ
test_duration_ns = 10000000000

-- The three bytes must come in one read: the position is not moved.
unfoldable pub until_three : ℕ → Reader → Flow Reader
until_three n r = if n == 3 then stop (ok n r) else again r

unfoldable pub handle_put_time_result_receive_ok : MeasurementState → Outcome MeasurementState
handle_put_time_result_receive_ok s =
    then_read s (read_upto_loop 3 until_three s.stream.reads (reader s)) (λ n t.
      reregister_then writable n (λ u. record u { read_pos = 0 })
        (record t { phase = perf_send_chunks }))

-- `str::split("; ")`; the current part is kept in front.
unfoldable pub split_pairs : Bytes → Bytes → List Bytes
split_pairs cur [] = cur ∷ []
split_pairs cur (c ∷ []) = (cur ++ c ∷ []) ∷ []
split_pairs cur (c ∷ d ∷ s) = elim (c == b';') [
  | true ↦ elim (d == 32) [
    | true ↦ cur ∷ split_pairs [] s
    | false ↦ split_pairs (cur ++ c ∷ []) (d ∷ s)
  ]
  | false ↦ split_pairs (cur ++ c ∷ []) (d ∷ s)
]

abbrev both_parsed : Option ℕ → Option ℕ → Option (ℕ × ℕ)
both_parsed (some t) (some b) = some (t, b)
both_parsed (some t) none = none
both_parsed none b = none

abbrev parse_parts : List Bytes → Option (ℕ × ℕ)
parse_parts (p ∷ q ∷ []) = both_parsed (parse_u64 p) (parse_u64 q)
parse_parts _ = none

unfoldable pub parse_pair : Bytes → Option (ℕ × ℕ)
unfolding trim_start_matches trim_end_matches words parse_u64
parse_pair s = parse_parts (words (trim_end_matches b')' (trim_start_matches b'(' s)))

abbrev cons_some : Option (ℕ × ℕ) → List (ℕ × ℕ) → List (ℕ × ℕ)
cons_some none ps = ps
cons_some (some p) ps = p ∷ ps

unfoldable pub parse_pairs : List Bytes → List (ℕ × ℕ)
unfolding parse_pair
parse_pairs [] = []
parse_pairs (s ∷ ss) = cons_some (parse_pair s) (parse_pairs ss)

-- The pairs of a TIMERESULT message, behind its first eleven bytes.
unfoldable pub time_result_pairs : Bytes → List (ℕ × ℕ)
unfolding split_pairs parse_pairs
time_result_pairs line = parse_pairs (split_pairs [] (drop 11 line))

abbrev last_pair : List (ℕ × ℕ) → Option (ℕ × ℕ)
last_pair [] = none
last_pair (p ∷ []) = some p
last_pair (p ∷ q ∷ ps) = last_pair (q ∷ ps)

abbrev set_totals : Option (ℕ × ℕ) → MeasurementState → MeasurementState
set_totals none s = s
set_totals (some (t, b)) s = record s { upload_time = some t; upload_bytes = some b }

-- All pairs are recorded, and the last one gives the totals. Any other line is passed over.
unfoldable pub take_result : Bytes → MeasurementState → MeasurementState
take_result line s =
    if starts_with (codes "TIMERESULT ") line
    then (let ps = time_result_pairs line in
        set_totals (last_pair ps) (record s { upload_measurements = s.upload_measurements ++ ps }))
    else s

abbrev taken : MeasurementState → Outcome Reader → Outcome MeasurementState
taken s (ok n r) = ok n (record s {
  stream = r.stream;
  read_buffer = r.buffer;
  time_result_buffer = s.time_result_buffer ++ take n r.buffer;
})
taken s (err e r) = err e (record s { stream = r.stream; read_buffer = r.buffer })
taken s (panic r) = panic (record s { stream = r.stream; read_buffer = r.buffer })

-- One read, whose bytes the result's text takes from the front of the read buffer.
unfoldable pub read_result : ReadCall → MeasurementState → Outcome MeasurementState
unfolding read
read_result e s = taken s (read s.read_pos e (reader s))

unfoldable pub result_round : ℕ → MeasurementState → Flow MeasurementState
result_round n s =
    if ends_at (codes "\n") s.time_result_buffer (length s.time_result_buffer)
    then stop (
        reregister_then writable n (λ u. record u { read_pos = 0; time_result_buffer = [] })
          (record (take_result s.time_result_buffer s) { phase = perf_completed }))
    else again s

unfoldable pub handle_put_time_result_receive_time : MeasurementState → Outcome MeasurementState
handle_put_time_result_receive_time s =
    io_loop (λ t. leb t.read_pos (length t.read_buffer)) pop_reads read_result result_round
      s.stream.reads s

-- `format!("PUTTIMERESULT {}\n", chunk_size)`.
unfoldable pub upload_command : ℕ → Bytes
upload_command size = codes "PUTTIMERESULT " ++ (format_u64 size ++ codes "\n")

unfoldable pub handle_put_time_result_send_command : MeasurementState → Outcome MeasurementState
handle_put_time_result_send_command s0 =
    let command = upload_command s0.chunk_size in
    write_to (length command) (fill command s0) (λ n t.
      reregister_then readable n (λ u. record u { write_pos = 0; read_pos = 0 })
        (record t { phase = perf_receive_ok }))

abbrev start_upload : Option ℕ → MeasurementState → MeasurementState
start_upload none s = record s { write_pos = 0; phase_start_time = some s.stream.now }
start_upload (some t) s = s

-- The test is over when a chunk is complete at or behind the test's duration.
unfoldable pub upload_round : ℕ → ℕ → MeasurementState → Flow MeasurementState
upload_round since n s0 =
    let s = record s0 { bytes_sent = u64 (s0.bytes_sent + n); write_pos = s0.write_pos + n } in
    if n == 0
    then stop (ok 0 s0)
    else if s.write_pos == s.chunk_size
    then (if leb test_duration_ns (elapsed s since)
        then stop (
            reregister_then writable n (λ u. record u { write_pos = 0 })
              (record s { phase = perf_send_last_chunk }))
        else again (record s { write_pos = 0 }))
    else again s

unfoldable pub last_upload_round : ℕ → MeasurementState → Flow MeasurementState
last_upload_round n s0 =
    let s = record s0 { bytes_sent = u64 (s0.bytes_sent + n); write_pos = s0.write_pos + n } in
    if s.write_pos == s.chunk_size then stop (enter perf_receive_time readable n s) else again s

module _ (random : Filler) where
  unfoldable pub handle_put_time_result_send_chunks : MeasurementState → Outcome MeasurementState
  handle_put_time_result_send_chunks s0 =
      let s = start_upload s0.phase_start_time s0 in
      unwrap s.phase_start_time s (λ since.
        unwrap (storage_get random false s.chunk_size) s
          (λ buffer. send_loop buffer (upload_round since) s))

  unfoldable pub handle_put_time_result_send_last_chunk :
      MeasurementState → Outcome MeasurementState
  handle_put_time_result_send_last_chunk s =
      unwrap (storage_get random true s.chunk_size) s
        (λ buffer. send_loop buffer last_upload_round s)
