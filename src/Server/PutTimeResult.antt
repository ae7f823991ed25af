-- ===== src/Server/PutTimeResult.antt =====
-- The upload whose report lists every chunk (src/mioserver/handlers/puttimeresult.rs).
pub mod Records
use nettest.Common.{
  ℕ, ◌+◌, ◌-◌, ◌++◌, ◌==◌, ltb, if◌then◌else◌, Option, none, some, Bytes, length, replicate, codes,
  splice, List, [], ◌∷◌,
}
use nettest.Net.{Outcome, Flow, err, panic, again, stop, other, is_eof, readable, writable}
use nettest.Server.{
  TestState, enter, fill, write_to, elapsed, unwrap, u64, chunk_loop, put_time_result_receive_chunk,
  put_time_result_send_time_result, accept_command_send,
}
use nettest.Server.Greeting.{ok_line}
use nettest.Server.Put.{last_received}
use nettest.Server.PutNoResult.{with_last}
use nettest.Text.{format_u64}

-- `if state.clock.is_none() { state.write_pos = 0; state.clock = Some(Instant::now()) }`.
abbrev pub restart : Option ℕ → TestState → TestState
restart none s = record s { write_pos = 0; clock = some s.stream.now }
restart (some t) s = s

unfoldable pub handle_put_time_result_send_ok : TestState → Outcome TestState
handle_put_time_result_send_ok s0 =
    let s = fill ok_line (restart s0.clock s0) in
    write_to is_eof s.write_buffer (length ok_line) s (λ n t.
      enter put_time_result_receive_chunk readable n (record t {
        write_pos = 0;
        read_pos = 0;
        chunk_buffer = replicate t.chunk_size 0;
        clock = some t.stream.now;
      }))

-- A complete chunk is recorded, and its last byte says how the upload goes on.
unfoldable pub time_result_chunk : ℕ → ℕ → TestState → Flow TestState
time_result_chunk b n s =
    if b == 0xFF
    then stop (
        enter put_time_result_send_time_result writable n
          (record s { read_pos = 0; write_pos = 0 }))
    else if b == 0x00
    then again (record s { read_pos = 0 })
    else stop (err other s)

-- `bytes_received.push_back((tt as u64, total_bytes))`.
abbrev pub record_chunk : ℕ → TestState → TestState
record_chunk since s = record s {
  bytes_received = s.bytes_received ++ (u64 (elapsed s since), s.total_bytes) ∷ [];
}

abbrev pub with_clock : Option ℕ → TestState → (ℕ → Flow TestState) → Flow TestState
with_clock none s k = stop (panic s)
with_clock (some t) s k = k t

unfoldable pub time_result_round : ℕ → TestState → Flow TestState
time_result_round n s0 =
    let s = record s0 { read_pos = s0.read_pos + n; total_bytes = u64 (s0.total_bytes + n) } in
    if n == 0
    then stop (err other s0)
    else if s.read_pos == s.chunk_size
    then with_clock s.clock s (λ since.
      let t = record_chunk since s in with_last (last_received t) t (λ b. time_result_chunk b n t))
    else again s

unfoldable pub handle_put_time_result_receive_chunk : TestState → Outcome TestState
handle_put_time_result_receive_chunk = chunk_loop time_result_round

-- `format!("({} {})", t, b)`, joined by "; ".
unfoldable pub pair_text : ℕ × ℕ → Bytes
pair_text (t, b) = codes "(" ++ (format_u64 t ++ (codes " " ++ (format_u64 b ++ codes ")")))

unfoldable pub join_pairs : List (ℕ × ℕ) → Bytes
unfolding pair_text
join_pairs [] = []
join_pairs (p ∷ []) = pair_text p
join_pairs (p ∷ q ∷ ps) = pair_text p ++ (codes "; " ++ join_pairs (q ∷ ps))

unfoldable pub time_result_line : List (ℕ × ℕ) → Bytes
unfolding join_pairs
time_result_line ps = codes "TIMERESULT " ++ (join_pairs ps ++ codes "\n")

-- The message is put at the front of the chunk buffer, which grows if it is too short.
abbrev fill_chunk : Bytes → TestState → TestState
fill_chunk m s =
    let grown =
      if ltb (length s.chunk_buffer) (length m)
      then s.chunk_buffer ++ replicate (length m - length s.chunk_buffer) 0
      else s.chunk_buffer in
    record s { chunk_buffer = if s.write_pos == 0 then splice 0 m grown else s.chunk_buffer }

-- The whole chunk buffer is written, what stands behind the message too.
unfoldable pub handle_put_time_result_send_time : TestState → Outcome TestState
handle_put_time_result_send_time s0 =
    let s = fill_chunk (time_result_line s0.bytes_received) s0 in
    write_to is_eof s.chunk_buffer (length s.chunk_buffer) s (λ n t. unwrap t.clock t (λ since.
      let u = record t { total_bytes = u64 (t.total_bytes + length t.chunk_buffer) } in
      enter accept_command_send writable n
        (record (record_chunk since u) { write_pos = 0; read_pos = 0 })))
