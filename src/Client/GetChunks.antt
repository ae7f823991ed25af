-- ===== src/Client/GetChunks.antt =====
-- The client's pre-download (src/client/handlers/get_chunks.rs).
pub mod Growth
use nettest.Common.{
  ℕ, ◌+◌, ◌-◌, ◌*◌, min, ◌++◌, true, false, ◌==◌, ◌&&◌, ltb, if◌then◌else◌, Option, none, some, [],
  ◌∷◌, Bytes, length, take, drop, codes, contains, starts_with, get_elem?,
}
use nettest.Net.{
  Outcome, Reader, Flow, ok, again, stop, readable, writable, write_loop, read_loop, is_some,
}
use nettest.Chunks.{max_chunk_size}
use nettest.Client.{
  MeasurementState, enter, reregister_then, fill, write_ahead, read_to, chunk_loop, resize, unwrap,
  unwrap_flow, accept_getchunks, get_chunks_send_chunks_command, get_chunks_receive_chunk,
  get_chunks_send_ok, get_chunks_receive_time, get_chunks_completed,
}
use nettest.Text.{format_u64, parse_u64}

abbrev pub ok_command : Bytes
ok_command = codes "OK\n"

-- `PRE_DOWNLOAD_DURATION_NS` and `MAX_CHUNKS_BEFORE_SIZE_INCREASE`.
abbrev pub pre_download_duration_ns : ℕ
pre_download_duration_ns = 2000000000

abbrev pub max_chunks_before_size_increase : ℕ
max_chunks_before_size_increase = 8

-- `str::find` of a text: what begins at its first place.
unfoldable pub find_text : Bytes → Bytes → Option Bytes
find_text pat [] = none
find_text pat (c ∷ s) =
    let rest = find_text pat s in if starts_with pat (c ∷ s) then some (c ∷ s) else rest

-- What stands in front of the first newline.
unfoldable pub before_newline : Bytes → Option Bytes
before_newline [] = none
before_newline (c ∷ s) = elim (c == b'\n') [
  | true ↦ some []
  | false ↦ elim (before_newline s) [ none ↦ none | some l ↦ some (c ∷ l) ]
]

abbrev parse_line : Option Bytes → Option ℕ
parse_line none = none
parse_line (some l) = parse_u64 (drop 5 l)

abbrev line_at : Option Bytes → Option Bytes
line_at none = none
line_at (some s) = before_newline s

unfoldable pub parse_time_response : Bytes → Option ℕ
unfolding find_text before_newline parse_u64
parse_time_response s = parse_line (line_at (find_text (codes "TIME ") s))

unfoldable pub increase_chunk_size : MeasurementState → MeasurementState
increase_chunk_size s =
    if ltb s.total_chunks max_chunks_before_size_increase
    then record s { total_chunks = s.total_chunks * 2 }
    else let size = min (s.chunk_size * 2) max_chunk_size in
      record s { chunk_size = size; chunk_buffer = resize size s.chunk_buffer }

-- `format!("GETCHUNKS {} {}\n", total_chunks, chunk_size)`.
unfoldable pub chunks_command : ℕ → ℕ → Bytes
chunks_command total size =
    codes "GETCHUNKS " ++ (format_u64 total ++ (codes " " ++ (format_u64 size ++ codes "\n")))

unfoldable pub handle_get_chunks_send_chunks_command : MeasurementState → Outcome MeasurementState
handle_get_chunks_send_chunks_command s0 =
    let command = chunks_command s0.total_chunks s0.chunk_size in
    write_ahead (length command) (fill command s0) (λ n t.
      reregister_then readable n
        (λ u. record u {
          phase = get_chunks_receive_chunk;
          chunk_buffer = resize u.chunk_size u.chunk_buffer;
          write_pos = 0;
          read_pos = 0;
        })
        t)

unfoldable pub handle_get_chunks_send_ok : MeasurementState → Outcome MeasurementState
handle_get_chunks_send_ok s0 = write_ahead (length ok_command) (fill ok_command s0) (λ n t.
    reregister_then readable n (λ u. record u { phase = get_chunks_receive_time; write_pos = 0 }) t)

-- `state.chunk_buffer[state.read_pos - 1]`.
abbrev pub last_received : MeasurementState → Option ℕ
last_received s = if s.read_pos == 0 then none else get_elem? s.chunk_buffer (s.read_pos - 1)

-- A complete chunk ends the phase by its last byte 0xFF; behind any other byte than 0x00 the
-- position stays where it is.
unfoldable pub chunk_round : ℕ → MeasurementState → Flow MeasurementState
chunk_round n s0 =
    let s = record s0 { read_pos = s0.read_pos + n } in
    if s.read_pos == s.chunk_size
    then unwrap_flow (last_received s) s (λ b.
      if b == 0x00
      then again (record s { read_pos = 0 })
      else if b == 0xFF
      then stop (enter get_chunks_send_ok writable n (record s { read_pos = 0 }))
      else again s)
    else again s

unfoldable pub handle_get_chunks_receive_chunk : MeasurementState → Outcome MeasurementState
handle_get_chunks_receive_chunk = chunk_loop chunk_round

-- The prompt has arrived, and a time before it.
unfoldable pub until_time : ℕ → Reader → Flow Reader
unfolding parse_time_response
until_time n r =
    let moved = record r { pos = r.pos + n } in
    let text = take moved.pos moved.buffer in
    if contains accept_getchunks text && is_some (parse_time_response text)
    then stop (ok n moved)
    else again moved

-- A download that was too short is repeated with more chunks or larger ones.
unfoldable pub after_time : ℕ → ℕ → MeasurementState → Outcome MeasurementState
after_time time_ns n s =
    let rest = λ (u : MeasurementState). record u { read_pos = 0; write_pos = 0 } in
    if ltb time_ns pre_download_duration_ns && ltb s.chunk_size max_chunk_size
    then reregister_then writable n rest
        (record (increase_chunk_size s) { phase = get_chunks_send_chunks_command })
    else reregister_then writable n rest (record s { phase = get_chunks_completed })

unfoldable pub handle_get_chunks_receive_time : MeasurementState → Outcome MeasurementState
handle_get_chunks_receive_time s = read_to until_time s (λ n t.
    unwrap (parse_time_response (take t.read_pos t.read_buffer)) t (λ time. after_time time n t))
