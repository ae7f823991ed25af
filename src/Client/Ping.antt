-- ===== src/Client/Ping.antt =====
-- The client's ping exchange and its median (src/client/handlers/ping.rs).
pub mod Median
use nettest.Common.{
  ℕ, ◌+◌, ◌-◌, ◌/◌, ◌%◌, ◌++◌, ◌==◌, ◌&&◌, leb, ltb, if◌then◌else◌, Option, none, some, List, [],
  ◌∷◌, Bytes, length, codes, ends_at, get_elem?,
}
use nettest.Net.{
  Outcome, Reader, Flow, ok, panic, again, stop, readable, writable, write_loop, read_loop,
  read_upto_loop, is_some,
}
use nettest.Client.{
  MeasurementState, u64, elapsed, enter, reregister_then, fill, write_to, then_read, reader,
  read_to, unwrap, accept_getchunks, ping_send_ping, ping_receive_pong, ping_send_ok,
  ping_receive_time, ping_completed,
}
use nettest.Client.GetChunks.{ok_command, parse_time_response}

abbrev pub max_pings : ℕ
max_pings = 200

abbrev pub ping_duration_ns : ℕ
ping_duration_ns = 1000000000

abbrev pub pong_response : Bytes
pong_response = codes "PONG\n"

unfoldable pub handle_ping_send_ok : MeasurementState → Outcome MeasurementState
handle_ping_send_ok s0 =
    write_to (length ok_command) (fill ok_command s0)
      (λ n t. enter ping_receive_time readable n (record t { write_pos = 0; read_pos = 0 }))

abbrev pub ping_command : Bytes
ping_command = codes "PING\n"

abbrev or_now : Option ℕ → ℕ → Option ℕ
or_now none now = some now
or_now (some t) now = some t

unfoldable pub handle_ping_send_ping : MeasurementState → Outcome MeasurementState
handle_ping_send_ping s0 = write_to (length ping_command) (fill ping_command s0) (λ n t.
    reregister_then readable n (λ u. record u { write_pos = 0; read_pos = 0 })
      (record t {
        phase_start_time = or_now t.phase_start_time t.stream.now;
        phase = ping_receive_pong;
      }))

unfoldable pub until_pong : ℕ → Reader → Flow Reader
until_pong n r =
    let moved = record r { pos = r.pos + n } in
    if moved.pos == length pong_response then stop (ok n moved) else again moved

-- Five bytes are read, whatever they are.
unfoldable pub handle_ping_receive_pong : MeasurementState → Outcome MeasurementState
handle_ping_receive_pong s =
    then_read s (read_upto_loop (length pong_response) until_pong s.stream.reads (reader s))
      (λ n t. enter ping_send_ok writable n (record t { read_pos = 0 }))

-- `sort_unstable`: of equal numbers, no order can be told.
abbrev pub insert_sorted : ℕ → List ℕ → List ℕ
insert_sorted a [] = a ∷ []
insert_sorted a (x ∷ xs) = if leb a x then a ∷ x ∷ xs else x ∷ insert_sorted a xs

pub sort_unstable : List ℕ → List ℕ
sort_unstable [] = []
sort_unstable (x ∷ xs) = insert_sorted x (sort_unstable xs)

abbrev pub mean : Option ℕ → Option ℕ → Option ℕ
mean (some a) (some b) = some (u64 (a + b) / 2)
mean (some a) none = none
mean none b = none

-- The middle of the sorted times, or the mean of the two in the middle. `none` is the panic that
-- the index `mid - 1` is when there are no times.
unfoldable pub get_median_latency : List ℕ → Option ℕ
unfolding sort_unstable
get_median_latency times =
    let sorted = sort_unstable times in
    let mid = length sorted / 2 in
    if length sorted % 2 == 0
    then (if mid == 0 then none else mean (get_elem? sorted (mid - 1)) (get_elem? sorted mid))
    else get_elem? sorted mid

-- The prompt stands at the end, and a time is found in the whole buffer.
unfoldable pub until_ping_time : Option ℕ → ℕ → Reader → Flow Reader
unfolding parse_time_response
until_ping_time none n r =
    let moved = record r { pos = r.pos + n } in
    if ends_at accept_getchunks moved.buffer moved.pos then stop (panic moved) else again moved
until_ping_time (some since) n r =
    let moved = record r { pos = r.pos + n } in
    if ends_at accept_getchunks moved.buffer moved.pos && is_some (parse_time_response moved.buffer)
    then stop (ok n moved)
    else again moved

-- A measured time is kept, and the next ping is sent unless the time is over or enough were sent.
unfoldable pub after_ping : ℕ → ℕ → ℕ → MeasurementState → Outcome MeasurementState
after_ping since time n s0 =
    let s = record s0 { ping_times = s0.ping_times ++ time ∷ [] } in
    let rest = λ (u : MeasurementState). record u { read_pos = 0 } in
    if ltb (elapsed s since) ping_duration_ns && ltb (length s.ping_times) max_pings
    then reregister_then writable n rest (record s { phase = ping_send_ping })
    else unwrap (get_median_latency s.ping_times) s (λ median.
      reregister_then writable n rest
        (record s { time_result = some median; ping_median = some median; phase = ping_completed }))

unfoldable pub handle_ping_receive_time : MeasurementState → Outcome MeasurementState
handle_ping_receive_time s = read_to (until_ping_time s.phase_start_time) s (λ n t.
    unwrap t.phase_start_time t
      (λ since. unwrap (parse_time_response t.read_buffer) t (λ time. after_ping since time n t)))
