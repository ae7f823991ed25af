-- ===== src/Server/Dispatch.antt =====
-- Which handler an event runs (src/mioserver/handlers/basic_handler.rs).
use nettest.Net.{Outcome, ok}
use nettest.Server.{
  ServerTestPhase, TestState, greeting_receive_connection_type, greeting_send_version,
  greeting_send_accept_token, greeting_receive_token, greeting_send_ok, greeting_send_chunksize,
  accept_command_receive, accept_command_send, get_chunk_send_ok, get_chunk_send_chunk,
  get_chunks_receive_ok, get_chunks_send_chunks_last, get_chunks_send_time, pong_send,
  ping_receive_ok, ping_send_time, get_time_send_chunk, get_time_send_last_chunk,
  get_time_receive_ok, get_time_send_time, put_no_result_send_ok, put_no_result_receive_chunk,
  put_no_result_send_time, put_send_ok, put_receive_chunk, put_send_bytes, put_send_time,
  put_time_result_send_ok, put_time_result_receive_chunk, put_time_result_send_time_result,
}
use nettest.Chunks.{Filler}
use nettest.Server.Greeting.{
  handle_greeting_accep_token_read, handle_greeting_send_version, handle_greeting_send_accept_token,
  handle_greeting_receive_token, handle_greeting_send_ok, handle_greeting_send_chunksize,
}
use nettest.Server.Command.{handle_main_command_send, handle_main_command_receive}
use nettest.Server.GetChunks.{
  handle_get_chunks_send_ok, handle_get_chunks_send_chunks, handle_get_chunks_send_chunks_last,
  handle_get_chunks_receive_ok, handle_get_chunks_send_time,
}
use nettest.Server.GetTime.{
  handle_get_time_send_chunk, handle_perf_send_last_chunk, handle_get_time_receive_ok,
  handle_get_time_send_time,
}
use nettest.Server.Ping.{handle_pong_send, handle_ping_receive_ok, handle_ping_send_time}
use nettest.Server.Put.{
  handle_put_send_ok, handle_put_send_bytes, handle_put_receive_chunk, handle_put_send_time,
}
use nettest.Server.PutNoResult.{
  handle_put_no_result_send_ok, handle_put_no_result_receive_chunk, handle_put_no_result_send_time,
}
use nettest.Server.PutTimeResult.{
  handle_put_time_result_send_ok, handle_put_time_result_receive_chunk,
  handle_put_time_result_send_time,
}

unfoldable pub read_dispatch : ServerTestPhase → TestState → Outcome TestState
read_dispatch greeting_receive_connection_type s = handle_greeting_accep_token_read s
read_dispatch greeting_receive_token s = handle_greeting_receive_token s
read_dispatch get_chunks_receive_ok s = handle_get_chunks_receive_ok s
read_dispatch accept_command_receive s = handle_main_command_receive s
read_dispatch get_time_receive_ok s = handle_get_time_receive_ok s
read_dispatch ping_receive_ok s = handle_ping_receive_ok s
read_dispatch put_no_result_receive_chunk s = handle_put_no_result_receive_chunk s
read_dispatch put_receive_chunk s = handle_put_receive_chunk s
read_dispatch put_time_result_receive_chunk s = handle_put_time_result_receive_chunk s
read_dispatch _ s = ok 1 s

unfoldable pub handle_client_readable_data : TestState → Outcome TestState
handle_client_readable_data s = read_dispatch s.measurement_state s

module _ (random : Filler) where
  unfoldable pub write_dispatch : ServerTestPhase → TestState → Outcome TestState
  write_dispatch greeting_send_version s = handle_greeting_send_version s
  write_dispatch greeting_send_accept_token s = handle_greeting_send_accept_token s
  write_dispatch greeting_send_ok s = handle_greeting_send_ok s
  write_dispatch greeting_send_chunksize s = handle_greeting_send_chunksize s
  write_dispatch get_chunk_send_ok s = handle_get_chunks_send_ok s
  write_dispatch get_chunk_send_chunk s = handle_get_chunks_send_chunks random s
  write_dispatch get_chunks_send_chunks_last s = handle_get_chunks_send_chunks_last random s
  write_dispatch get_chunks_send_time s = handle_get_chunks_send_time s
  write_dispatch accept_command_send s = handle_main_command_send s
  write_dispatch pong_send s = handle_pong_send s
  write_dispatch ping_send_time s = handle_ping_send_time s
  write_dispatch get_time_send_chunk s = handle_get_time_send_chunk random s
  write_dispatch get_time_send_last_chunk s = handle_perf_send_last_chunk random s
  write_dispatch get_time_send_time s = handle_get_time_send_time s
  write_dispatch put_no_result_send_ok s = handle_put_no_result_send_ok s
  write_dispatch put_no_result_send_time s = handle_put_no_result_send_time s
  write_dispatch put_send_ok s = handle_put_send_ok s
  write_dispatch put_send_time s = handle_put_send_time s
  write_dispatch put_send_bytes s = handle_put_send_bytes s
  write_dispatch put_time_result_send_ok s = handle_put_time_result_send_ok s
  write_dispatch put_time_result_send_time_result s = handle_put_time_result_send_time s
  write_dispatch _ s = ok 1 s

  unfoldable pub handle_client_writable_data : TestState → Outcome TestState
  handle_client_writable_data s = write_dispatch s.measurement_state s
