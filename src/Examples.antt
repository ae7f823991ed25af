-- ===== src/Examples.antt =====
-- The theorems at concrete connections.
mod Settings
mod Workers
mod Speeds
mod Rmbt
use nettest.Common.{
  inl, Bytes, ℕ, true, false, List, [], ◌∷◌, none, some, replicate, length-replicate, codes, arith,
  ◌≡◌, refl, ◌++◌,
}
use mathlib.Core.List.{Perm}
use nettest.Net.{
  final, Stream, Interest, writable, readable, both, tcp, ReadCall, arrive, WriteCall, accept,
}
use nettest.Chunks.Shape.{IsChunk, supplied-IsChunk}
use nettest.Chunks.{set_last, last_byte, storage_get, Filler, max_chunk_size}
use nettest.Server.{
  put_time_result_receive_chunk, ServerTestPhase, TestState, enter, greeting_send_version,
  greeting_send_accept_token, accept_command_receive, put_receive_chunk, get_chunks_receive_ok,
  get_time_send_chunk, get_chunk_send_chunk, put_time_result_send_ok,
}
use nettest.Server.Greeting.{version}
use nettest.Server.Command.{command}
use nettest.Server.Command.Sizes.{HasSize, command-HasSize}
use nettest.Server.GetChunks.{time_line}
use nettest.Server.Put.Counts.{Counts}
use nettest.Server.Dispatch.{
  handle_client_readable_data, read_dispatch, handle_client_writable_data,
}
use nettest.Server.Event.{Event, verdict, stays, handle_event, accepted}
use nettest.Server.Sending.{Sends}
use nettest.Server.Sending.Once.{message_sent_once, version_reply}
use nettest.Server.Protocol.{Keeps, Wakes}
use nettest.Server.Protocol.Events.{event-Keeps}
use nettest.Server.Protocol.Reach.{event, IsPath, start, reachable-Wakes}
use nettest.Client.{MeasurementState, get_chunks_send_chunks_command, get_chunks_completed}
use nettest.Client.GetChunks.{chunks_command, parse_time_response, increase_chunk_size}
use nettest.Client.GetChunks.Growth.{
  IsSized, room_left, repeated, increase_chunk_size-IsSized, repeated-ends,
}
use nettest.Client.GetTime.{time_command, reported_time}
use nettest.Client.Ping.{sort_unstable, get_median_latency}
use nettest.Client.Ping.Median.{IsMedian, get_median_latency-IsMedian}
use nettest.Client.PutTimeResult.{upload_command}
use nettest.Client.Phases.{phase_loop, polled, returned}
use nettest.Client.Phases.Timeout.{idle_poll-fails}
use nettest.Interop.Download.{time_command-understood, chunks_command-understood}
use nettest.Interop.TimeResult.{time_result_pairs-time_result_line}
use nettest.Server.PutTimeResult.{time_result_line}
use nettest.Server.PutTimeResult.Records.{Records}
use nettest.Client.PutTimeResult.{time_result_pairs}
use nettest.Interop.Upload.{upload_command-understood}
use nettest.Interop.Replies.{parse_time_response-time_line, reported_time-time_line}
use nettest.Common.{◌≤◌, ◌<◌}

abbrev zeros : Filler
zeros = record {
  fill_bytes = λ _ n. replicate n 0;
  length-fill_bytes = λ _ n. length-replicate n 0;
}

abbrev socket : List ReadCall → List WriteCall → Interest → Stream
socket rs ws i = record {
  kind = tcp;
  reads = rs;
  writes = ws;
  registrations = [];
  flushes = [];
  sent = [];
  now = 7;
  interest = i;
}

abbrev connection : ServerTestPhase → Stream → TestState
connection p s = record {
  token = 3;
  stream = s;
  measurement_state = p;
  read_buffer = replicate 64 0;
  write_buffer = replicate 64 0;
  read_pos = 0;
  total_bytes = 0;
  write_pos = 0;
  num_chunks = 0;
  chunk_size = 8;
  processed_chunks = 0;
  clock = some 2;
  time_ns = none;
  duration = 0;
  chunk_buffer = replicate 8 0;
  chunk = none;
  terminal_chunk = none;
  bytes_received = [];
}

-- The socket takes the version in two parts.
abbrev greeted : TestState
greeted = connection greeting_send_version (socket [] (accept 8 4 ∷ accept 9 100 ∷ []) writable)

abbrev listening : TestState
listening = connection accept_command_receive (socket [] [] readable)

abbrev uploading : TestState
uploading =
    connection put_receive_chunk
      (socket (arrive 8 (1 ∷ 2 ∷ 3 ∷ []) ∷ arrive 9 (4 ∷ 5 ∷ 6 ∷ 7 ∷ 255 ∷ []) ∷ []) [] readable)

-- A confirmation that comes in two pieces.
abbrev in_pieces : TestState
in_pieces =
    connection get_chunks_receive_ok
      (socket (arrive 8 (codes "O") ∷ arrive 9 (codes "K\n") ∷ []) [] readable)

abbrev client : MeasurementState
client = record {
  token = 0;
  phase = get_chunks_send_chunks_command;
  upload_bytes = none;
  upload_time = none;
  download_time = none;
  chunk_size = 4096;
  ping_median = none;
  phase_start_time = some 5;
  read_buffer = replicate 64 0;
  write_buffer = replicate 64 0;
  read_pos = 0;
  write_pos = 0;
  download_measurements = [];
  upload_measurements = [];
  failed = false;
  stream = socket [] [] both;
  total_chunks = 1;
  chunk_buffer = [];
  ping_times = [];
  time_result = none;
  bytes_received = 0;
  bytes_sent = 0;
  time_result_buffer = [];
}

message_sent_once_example :
    Sends version [] greeting_send_version greeting_send_accept_token
      (handle_client_writable_data zeros greeted)
message_sent_once_example = message_sent_once zeros greeted [] version_reply refl refl (record {
  within = omega arith;
  fits = omega arith;
  sent = refl;
  loaded = λ h. absurd (h refl);
})

event-Keeps_example :
    Keeps greeting_send_version writable
      (handle_event zeros (record { is_readable = false; is_writable = true }) greeted)
event-Keeps_example =
    event-Keeps zeros (record { is_readable = false; is_writable = true }) greeted refl

abbrev new_connection : TestState
new_connection = accepted 3 (socket [] [] writable)

-- A readable event in a phase that writes is passed over.
abbrev early : Event
early = record { is_readable = true; is_writable = false }

abbrev after_early : TestState
after_early = final (handle_event zeros early new_connection)

early_stays : verdict (handle_event zeros early new_connection) ≡ stays
unfolding handle_event handle_client_readable_data read_dispatch accepted
early_stays = refl

reachable-Wakes_example :
    IsPath greeting_send_version after_early.measurement_state
    × Wakes after_early.measurement_state after_early.stream.interest
reachable-Wakes_example =
    reachable-Wakes zeros after_early
      (event {s = new_connection} early (start 3 (socket [] [] writable) refl) early_stays)

command-HasSize_example : HasSize listening (command (codes "GETTIME 7 5000\n") 15 listening)
command-HasSize_example = command-HasSize listening (codes "GETTIME 7 5000\n") 15

time_command-understood_example :
    command (time_command 8192) 16 listening
    ≡ enter get_time_send_chunk writable 16
        (record listening { duration = 10; chunk_size = 8192; read_pos = 0 })
time_command-understood_example =
    time_command-understood 8192 16 listening (omega arith) (omega arith)

chunks_command-understood_example :
    command (chunks_command 4 8192) 17 listening
    ≡ enter get_chunk_send_chunk writable 17
        (record listening { num_chunks = 4; chunk_size = 8192; read_pos = 0 })
chunks_command-understood_example =
    chunks_command-understood 4 8192 17 listening (omega arith) (omega arith) (omega arith)

upload_command-understood_example :
    command (upload_command 8192) 19 listening
    ≡ enter put_time_result_send_ok writable 19
        (record listening { chunk_size = 8192; read_pos = 0 })
upload_command-understood_example =
    upload_command-understood 8192 19 listening (omega arith) (omega arith)

parse_time_response-time_line_example :
    parse_time_response (time_line 1500 ++ codes "ACCEPT GETCHUNKS\n") ≡ some 1500
parse_time_response-time_line_example =
    parse_time_response-time_line 1500 (codes "ACCEPT GETCHUNKS\n") (omega arith)

reported_time-time_line_example :
    reported_time (time_line 1500 ++ codes "ACCEPT GETCHUNKS\n") ≡ some 1500
reported_time-time_line_example =
    reported_time-time_line 1500 (codes "ACCEPT GETCHUNKS\n") (omega arith)

abbrev client-IsSized : IsSized client
client-IsSized = (omega arith, omega arith, omega arith, omega arith)

increase_chunk_size-IsSized_example :
    IsSized (increase_chunk_size client)
    × (room_left (increase_chunk_size client) < room_left client)
increase_chunk_size-IsSized_example =
    increase_chunk_size-IsSized client client-IsSized (omega arith)

repeated-ends_example : (repeated 13 client).chunk_size ≡ max_chunk_size
repeated-ends_example = repeated-ends client client-IsSized

get_median_latency-IsMedian_example :
    (m : ℕ) × (get_median_latency (30 ∷ 10 ∷ 20 ∷ 40 ∷ []) ≡ some m)
    × IsMedian (30 ∷ 10 ∷ 20 ∷ 40 ∷ []) m
get_median_latency-IsMedian_example =
    get_median_latency-IsMedian (30 ∷ 10 ∷ 20 ∷ 40 ∷ []) (cc) (ground arith)

-- The client of above, three seconds after the time of its last event.
idle_poll-fails_example :
    phase_loop zeros get_chunks_completed 3000000000 (polled 3000000900 100 [] ∷ []) client
    ≡ returned (record client { stream = record client.stream { now = 3000000900 }; failed = true })
idle_poll-fails_example =
    idle_poll-fails zeros get_chunks_completed 3000000000 3000000900 100 5 [] client (cc) refl
      (omega arith) (omega arith) (omega arith) (omega arith)

time_result_pairs-time_result_line_example :
    time_result_pairs (time_result_line ((100, 4096) ∷ (200, 8192) ∷ [])) ≡ (100, 4096) ∷ []
time_result_pairs-time_result_line_example =
    time_result_pairs-time_result_line ((100, 4096) ∷ []) (200, 8192)
      ((omega arith, omega arith), tt) (omega arith, omega arith)

abbrev reporting : TestState
reporting = connection put_time_result_receive_chunk (
    socket (arrive 8 (1 ∷ 2 ∷ 3 ∷ 4 ∷ 5 ∷ 6 ∷ 7 ∷ 0 ∷ []) ∷ arrive 9 (4 ∷ 5 ∷ []) ∷ []) [] readable)

abbrev last_chunk : Bytes
last_chunk = set_last 4096 (last_byte true) (replicate 4096 0)

last_chunk_stored : storage_get zeros true 4096 ≡ some last_chunk
unfolding storage_get
last_chunk_stored = refl

supplied-IsChunk_example : IsChunk true 4096 last_chunk
supplied-IsChunk_example = supplied-IsChunk zeros true 4096 last_chunk (inl last_chunk_stored)

-- An unknown line, and then a PING.
abbrev puzzled : TestState
puzzled =
    record (connection accept_command_receive
      (socket (arrive 8 (codes "PING\n") ∷ []) [] readable)) {
        read_buffer = codes "XYZ\n" ++ replicate 60 0;
        read_pos = 4;
      }
