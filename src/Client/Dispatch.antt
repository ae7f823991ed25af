-- ===== src/Client/Dispatch.antt =====
-- Which handler an event runs in the client (src/client/handlers/basic_handler.rs).
use nettest.Net.{Outcome, ok}
use nettest.Chunks.{Filler}
use nettest.Client.{
  TestPhase, MeasurementState, greeting_send_connection_type, greeting_send_token,
  greeting_receive_greeting, greeting_receive_response, get_chunks_send_chunks_command,
  get_chunks_receive_chunk, get_chunks_send_ok, get_chunks_receive_time, ping_send_ping,
  ping_receive_pong, ping_send_ok, ping_receive_time, get_time_send_command, get_time_receive_chunk,
  get_time_send_ok, get_time_receive_time, perf_send_command, perf_receive_ok, perf_send_chunks,
  perf_send_last_chunk, perf_receive_time,
}
use nettest.Client.Greeting.{
  handle_greeting_send_connection_type, handle_greeting_send_token,
  handle_greeting_receive_greeting, handle_greeting_receive_response,
}
use nettest.Client.GetChunks.{
  handle_get_chunks_send_chunks_command, handle_get_chunks_send_ok, handle_get_chunks_receive_chunk,
  handle_get_chunks_receive_time,
}
use nettest.Client.GetTime.{
  handle_get_time_send_ok, handle_get_time_send_command, handle_get_time_receive_chunk,
  handle_get_time_receive_time,
}
use nettest.Client.Ping.{
  handle_ping_send_ok, handle_ping_send_ping, handle_ping_receive_pong, handle_ping_receive_time,
}
use nettest.Client.PutTimeResult.{
  handle_put_time_result_receive_ok, handle_put_time_result_receive_time,
  handle_put_time_result_send_command, handle_put_time_result_send_chunks,
  handle_put_time_result_send_last_chunk,
}

unfoldable pub read_dispatch : TestPhase → MeasurementState → Outcome MeasurementState
read_dispatch greeting_receive_greeting s = handle_greeting_receive_greeting s
read_dispatch greeting_receive_response s = handle_greeting_receive_response s
read_dispatch get_chunks_receive_chunk s = handle_get_chunks_receive_chunk s
read_dispatch get_chunks_receive_time s = handle_get_chunks_receive_time s
read_dispatch get_time_receive_chunk s = handle_get_time_receive_chunk s
read_dispatch get_time_receive_time s = handle_get_time_receive_time s
read_dispatch ping_receive_pong s = handle_ping_receive_pong s
read_dispatch ping_receive_time s = handle_ping_receive_time s
read_dispatch perf_receive_ok s = handle_put_time_result_receive_ok s
read_dispatch perf_receive_time s = handle_put_time_result_receive_time s
read_dispatch greeting_send_connection_type s = handle_greeting_send_connection_type s
read_dispatch _ s = ok 1 s

unfoldable pub handle_client_readable_data : MeasurementState → Outcome MeasurementState
handle_client_readable_data s = read_dispatch s.phase s

module _ (random : Filler) where
  unfoldable pub write_dispatch : TestPhase → MeasurementState → Outcome MeasurementState
  write_dispatch greeting_send_connection_type s = handle_greeting_send_connection_type s
  write_dispatch greeting_send_token s = handle_greeting_send_token s
  write_dispatch get_chunks_send_chunks_command s = handle_get_chunks_send_chunks_command s
  write_dispatch get_chunks_send_ok s = handle_get_chunks_send_ok s
  write_dispatch ping_send_ping s = handle_ping_send_ping s
  write_dispatch ping_send_ok s = handle_ping_send_ok s
  write_dispatch get_time_send_command s = handle_get_time_send_command s
  write_dispatch get_time_send_ok s = handle_get_time_send_ok s
  write_dispatch perf_send_command s = handle_put_time_result_send_command s
  write_dispatch perf_send_chunks s = handle_put_time_result_send_chunks random s
  write_dispatch perf_send_last_chunk s = handle_put_time_result_send_last_chunk random s
  write_dispatch _ s = ok 1 s

  unfoldable pub handle_client_writable_data : MeasurementState → Outcome MeasurementState
  handle_client_writable_data s = write_dispatch s.phase s
