-- ===== src/Server/Protocol/Events.antt =====
-- The diagram and the events of a connection (src/mioserver/handlers/basic_handler.rs, worker.rs).
use nettest.Common.{◌≡◌, inr, refl}
use nettest.Net.{Interest}
use nettest.Chunks.{Filler}
use nettest.Server.{
  ServerTestPhase, TestState, greeting_receive_connection_type, greeting_send_version,
  greeting_send_accept_token, greeting_receive_token, greeting_send_ok, greeting_send_chunksize,
  accept_token_quit, accept_command_receive, accept_command_send, get_chunk_send_ok,
  get_chunk_send_chunk, get_chunks_receive_ok, get_chunks_send_chunks_last, get_chunks_send_time,
  pong_send, ping_receive_ok, ping_send_time, get_time_send_chunk, get_time_send_last_chunk,
  get_time_receive_ok, get_time_send_time, put_no_result_send_ok, put_no_result_receive_chunk,
  put_no_result_send_time, put_send_ok, put_receive_chunk, put_send_bytes, put_send_time,
  put_time_result_send_ok, put_time_result_receive_chunk, put_time_result_send_time_result,
}
use nettest.Server.Dispatch.{
  read_dispatch, write_dispatch, handle_client_readable_data, handle_client_writable_data,
}
use nettest.Server.Event.{Event, handle_event}
use nettest.Server.Protocol.{Keeps, Wakes, still_awake, if_elim}
use nettest.Server.Protocol.Writing.{
  handle_greeting_send_version-Keeps, handle_greeting_send_accept_token-Keeps,
  handle_greeting_send_ok-Keeps, handle_greeting_send_chunksize-Keeps,
  handle_main_command_send-Keeps, handle_get_chunks_send_ok-Keeps,
  handle_put_no_result_send_ok-Keeps, handle_ping_send_time-Keeps, handle_put_send_time-Keeps,
  handle_put_no_result_send_time-Keeps,
}
use nettest.Server.Protocol.Measured.{
  handle_get_chunks_send_chunks-Keeps, handle_get_chunks_send_chunks_last-Keeps,
  handle_get_chunks_send_time-Keeps, handle_get_time_send_chunk-Keeps,
  handle_perf_send_last_chunk-Keeps, handle_get_time_send_time-Keeps, handle_pong_send-Keeps,
  handle_put_send_ok-Keeps, handle_put_time_result_send_ok-Keeps, handle_put_send_bytes-Keeps,
  handle_put_time_result_send_time-Keeps,
}
use nettest.Server.Protocol.Reading.{
  handle_greeting_accep_token_read-Keeps, handle_greeting_receive_token-Keeps,
  handle_get_chunks_receive_ok-Keeps, handle_get_time_receive_ok-Keeps,
  handle_ping_receive_ok-Keeps, handle_put_receive_chunk-Keeps,
  handle_put_no_result_receive_chunk-Keeps, handle_put_time_result_receive_chunk-Keeps,
}
use nettest.Server.Protocol.Commands.{handle_main_command_receive-Keeps}

read_dispatch-Keeps :
    (p : ServerTestPhase) (i : Interest) (s : TestState)
    → s.measurement_state ≡ p
    → s.stream.interest ≡ i
    → Wakes p i
    → Keeps p i (read_dispatch p s)
unfolding read_dispatch
read_dispatch-Keeps greeting_receive_connection_type i s e f w =
    handle_greeting_accep_token_read-Keeps s i e f
read_dispatch-Keeps greeting_send_version i s e f w =
    (inr e, still_awake {p = greeting_send_version} w e f)
read_dispatch-Keeps greeting_send_accept_token i s e f w =
    (inr e, still_awake {p = greeting_send_accept_token} w e f)
read_dispatch-Keeps greeting_receive_token i s e f w = handle_greeting_receive_token-Keeps s i e f
read_dispatch-Keeps greeting_send_ok i s e f w = (inr e, still_awake {p = greeting_send_ok} w e f)
read_dispatch-Keeps greeting_send_chunksize i s e f w =
    (inr e, still_awake {p = greeting_send_chunksize} w e f)
read_dispatch-Keeps accept_token_quit i s e f w = (inr e, still_awake {p = accept_token_quit} w e f)
read_dispatch-Keeps accept_command_receive i s e f w = handle_main_command_receive-Keeps s i e f w
read_dispatch-Keeps accept_command_send i s e f w =
    (inr e, still_awake {p = accept_command_send} w e f)
read_dispatch-Keeps get_chunk_send_ok i s e f w = (inr e, still_awake {p = get_chunk_send_ok} w e f)
read_dispatch-Keeps get_chunk_send_chunk i s e f w =
    (inr e, still_awake {p = get_chunk_send_chunk} w e f)
read_dispatch-Keeps get_chunks_receive_ok i s e f w = handle_get_chunks_receive_ok-Keeps s i e f
read_dispatch-Keeps get_chunks_send_chunks_last i s e f w =
    (inr e, still_awake {p = get_chunks_send_chunks_last} w e f)
read_dispatch-Keeps get_chunks_send_time i s e f w =
    (inr e, still_awake {p = get_chunks_send_time} w e f)
read_dispatch-Keeps pong_send i s e f w = (inr e, still_awake {p = pong_send} w e f)
read_dispatch-Keeps ping_receive_ok i s e f w = handle_ping_receive_ok-Keeps s i e f
read_dispatch-Keeps ping_send_time i s e f w = (inr e, still_awake {p = ping_send_time} w e f)
read_dispatch-Keeps get_time_send_chunk i s e f w =
    (inr e, still_awake {p = get_time_send_chunk} w e f)
read_dispatch-Keeps get_time_send_last_chunk i s e f w =
    (inr e, still_awake {p = get_time_send_last_chunk} w e f)
read_dispatch-Keeps get_time_receive_ok i s e f w = handle_get_time_receive_ok-Keeps s i e f
read_dispatch-Keeps get_time_send_time i s e f w =
    (inr e, still_awake {p = get_time_send_time} w e f)
read_dispatch-Keeps put_no_result_send_ok i s e f w =
    (inr e, still_awake {p = put_no_result_send_ok} w e f)
read_dispatch-Keeps put_no_result_receive_chunk i s e f w =
    handle_put_no_result_receive_chunk-Keeps s i e f
read_dispatch-Keeps put_no_result_send_time i s e f w =
    (inr e, still_awake {p = put_no_result_send_time} w e f)
read_dispatch-Keeps put_send_ok i s e f w = (inr e, still_awake {p = put_send_ok} w e f)
read_dispatch-Keeps put_receive_chunk i s e f w = handle_put_receive_chunk-Keeps s i e f
read_dispatch-Keeps put_send_bytes i s e f w = (inr e, still_awake {p = put_send_bytes} w e f)
read_dispatch-Keeps put_send_time i s e f w = (inr e, still_awake {p = put_send_time} w e f)
read_dispatch-Keeps put_time_result_send_ok i s e f w =
    (inr e, still_awake {p = put_time_result_send_ok} w e f)
read_dispatch-Keeps put_time_result_receive_chunk i s e f w =
    handle_put_time_result_receive_chunk-Keeps s i e f
read_dispatch-Keeps put_time_result_send_time_result i s e f w =
    (inr e, still_awake {p = put_time_result_send_time_result} w e f)

write_dispatch-Keeps :
    (random : Filler) (p : ServerTestPhase) (i : Interest) (s : TestState)
    → s.measurement_state ≡ p
    → s.stream.interest ≡ i
    → Wakes p i
    → Keeps p i (write_dispatch random p s)
unfolding write_dispatch
write_dispatch-Keeps random greeting_receive_connection_type i s e f w =
    (inr e, still_awake {p = greeting_receive_connection_type} w e f)
write_dispatch-Keeps random greeting_send_version i s e f w =
    handle_greeting_send_version-Keeps s i e f
write_dispatch-Keeps random greeting_send_accept_token i s e f w =
    handle_greeting_send_accept_token-Keeps s i e f
write_dispatch-Keeps random greeting_receive_token i s e f w =
    (inr e, still_awake {p = greeting_receive_token} w e f)
write_dispatch-Keeps random greeting_send_ok i s e f w = handle_greeting_send_ok-Keeps s i e f
write_dispatch-Keeps random greeting_send_chunksize i s e f w =
    handle_greeting_send_chunksize-Keeps s i e f
write_dispatch-Keeps random accept_token_quit i s e f w =
    (inr e, still_awake {p = accept_token_quit} w e f)
write_dispatch-Keeps random accept_command_receive i s e f w =
    (inr e, still_awake {p = accept_command_receive} w e f)
write_dispatch-Keeps random accept_command_send i s e f w = handle_main_command_send-Keeps s i e f
write_dispatch-Keeps random get_chunk_send_ok i s e f w = handle_get_chunks_send_ok-Keeps s i e f
write_dispatch-Keeps random get_chunk_send_chunk i s e f w =
    handle_get_chunks_send_chunks-Keeps random s i e f w
write_dispatch-Keeps random get_chunks_receive_ok i s e f w =
    (inr e, still_awake {p = get_chunks_receive_ok} w e f)
write_dispatch-Keeps random get_chunks_send_chunks_last i s e f w =
    handle_get_chunks_send_chunks_last-Keeps random s i e f w
write_dispatch-Keeps random get_chunks_send_time i s e f w =
    handle_get_chunks_send_time-Keeps s i e f w
write_dispatch-Keeps random pong_send i s e f w = handle_pong_send-Keeps s i e f
write_dispatch-Keeps random ping_receive_ok i s e f w =
    (inr e, still_awake {p = ping_receive_ok} w e f)
write_dispatch-Keeps random ping_send_time i s e f w = handle_ping_send_time-Keeps s i e f
write_dispatch-Keeps random get_time_send_chunk i s e f w =
    handle_get_time_send_chunk-Keeps random s i e f
write_dispatch-Keeps random get_time_send_last_chunk i s e f w =
    handle_perf_send_last_chunk-Keeps random s i e f
write_dispatch-Keeps random get_time_receive_ok i s e f w =
    (inr e, still_awake {p = get_time_receive_ok} w e f)
write_dispatch-Keeps random get_time_send_time i s e f w = handle_get_time_send_time-Keeps s i e f
write_dispatch-Keeps random put_no_result_send_ok i s e f w =
    handle_put_no_result_send_ok-Keeps s i e f
write_dispatch-Keeps random put_no_result_receive_chunk i s e f w =
    (inr e, still_awake {p = put_no_result_receive_chunk} w e f)
write_dispatch-Keeps random put_no_result_send_time i s e f w =
    handle_put_no_result_send_time-Keeps s i e f
write_dispatch-Keeps random put_send_ok i s e f w = handle_put_send_ok-Keeps s i e f
write_dispatch-Keeps random put_receive_chunk i s e f w =
    (inr e, still_awake {p = put_receive_chunk} w e f)
write_dispatch-Keeps random put_send_bytes i s e f w = handle_put_send_bytes-Keeps s i e f
write_dispatch-Keeps random put_send_time i s e f w = handle_put_send_time-Keeps s i e f
write_dispatch-Keeps random put_time_result_send_ok i s e f w =
    handle_put_time_result_send_ok-Keeps s i e f
write_dispatch-Keeps random put_time_result_receive_chunk i s e f w =
    (inr e, still_awake {p = put_time_result_receive_chunk} w e f)
write_dispatch-Keeps random put_time_result_send_time_result i s e f w =
    handle_put_time_result_send_time-Keeps s i e f

module _ (random : Filler) where
  -- An event of a connection whose stream is registered for what the phase waits for: if the handler
  -- returns, the next phase is the same one or one that the diagram has an edge to, and the stream is
  -- registered for what that phase waits for; if it would block, the phase and the registration stay.
  pub event-Keeps :
      (e : Event) (s : TestState)
      → Wakes s.measurement_state s.stream.interest
      → Keeps s.measurement_state s.stream.interest (handle_event random e s)
  unfolding handle_event handle_client_readable_data handle_client_writable_data
  event-Keeps e s w =
      if_elim (Keeps s.measurement_state s.stream.interest) e.is_readable
        (read_dispatch-Keeps s.measurement_state s.stream.interest s refl refl w)
        (if_elim (Keeps s.measurement_state s.stream.interest) e.is_writable
          (write_dispatch-Keeps random s.measurement_state s.stream.interest s refl refl w)
          (inr refl, still_awake {p = s.measurement_state} w refl refl))
