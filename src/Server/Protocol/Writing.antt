-- ===== src/Server/Protocol/Writing.antt =====
-- The diagram and the handlers in src/mioserver/handlers that write one message.
use nettest.Common.{◌≡◌, refl, ◌∙◌}
use nettest.Net.{Interest, readable, writable}
use nettest.Server.{
  TestState, fill, greeting_send_version, greeting_send_accept_token, greeting_send_ok,
  greeting_send_chunksize, accept_command_send, get_chunk_send_ok, ping_send_time,
  put_no_result_send_ok, put_no_result_send_time, put_send_time,
}
use nettest.Server.Greeting.{
  version, accept_token, ok_line, chunk_size_msg, handle_greeting_send_version,
  handle_greeting_send_accept_token, handle_greeting_send_ok, handle_greeting_send_chunksize,
}
use nettest.Server.Command.{accept_commands, handle_main_command_send}
use nettest.Server.GetChunks.{time_line, handle_get_chunks_send_ok}
use nettest.Server.Ping.{handle_ping_send_time}
use nettest.Server.Put.{handle_put_send_time}
use nettest.Server.PutNoResult.{handle_put_no_result_send_ok, handle_put_no_result_send_time}
use nettest.Server.Protocol.{
  Keeps, enter-Keeps, flush-Keeps, unwrap-Keeps, written-Keeps, versioned, asked, token_accepted,
  sizes_sent, prompted, chunks_ok, ping_reported, no_result_ready, no_result_reported, put_reported,
}

pub handle_greeting_send_version-Keeps :
    (s : TestState) (i : Interest)
    → s.measurement_state ≡ greeting_send_version
    → s.stream.interest ≡ i
    → Keeps greeting_send_version i (handle_greeting_send_version s)
unfolding handle_greeting_send_version
handle_greeting_send_version-Keeps s i e f =
    written-Keeps greeting_send_version i (fill version s) _ _ _ _ e f (λ n c g.
      flush-Keeps greeting_send_version i _ _ e (g.0 ∙ f)
        (λ u. enter-Keeps greeting_send_version i writable n _ versioned refl))

pub handle_greeting_send_accept_token-Keeps :
    (s : TestState) (i : Interest)
    → s.measurement_state ≡ greeting_send_accept_token
    → s.stream.interest ≡ i
    → Keeps greeting_send_accept_token i (handle_greeting_send_accept_token s)
unfolding handle_greeting_send_accept_token
handle_greeting_send_accept_token-Keeps s i e f =
    written-Keeps greeting_send_accept_token i (fill accept_token s) _ _ _ _ e f (λ n c g.
      flush-Keeps greeting_send_accept_token i _ _ e (g.0 ∙ f)
        (λ u. enter-Keeps greeting_send_accept_token i readable n _ asked refl))

pub handle_greeting_send_ok-Keeps :
    (s : TestState) (i : Interest)
    → s.measurement_state ≡ greeting_send_ok
    → s.stream.interest ≡ i
    → Keeps greeting_send_ok i (handle_greeting_send_ok s)
unfolding handle_greeting_send_ok
handle_greeting_send_ok-Keeps s i e f =
    written-Keeps greeting_send_ok i (fill ok_line s) _ _ _ _ e f
      (λ n c g. enter-Keeps greeting_send_ok i writable n _ token_accepted refl)

pub handle_greeting_send_chunksize-Keeps :
    (s : TestState) (i : Interest)
    → s.measurement_state ≡ greeting_send_chunksize
    → s.stream.interest ≡ i
    → Keeps greeting_send_chunksize i (handle_greeting_send_chunksize s)
unfolding handle_greeting_send_chunksize
handle_greeting_send_chunksize-Keeps s i e f =
    written-Keeps greeting_send_chunksize i (fill chunk_size_msg s) _ _ _ _ e f
      (λ n c g. enter-Keeps greeting_send_chunksize i writable n _ sizes_sent refl)

pub handle_main_command_send-Keeps :
    (s : TestState) (i : Interest)
    → s.measurement_state ≡ accept_command_send
    → s.stream.interest ≡ i
    → Keeps accept_command_send i (handle_main_command_send s)
unfolding handle_main_command_send
handle_main_command_send-Keeps s i e f =
    written-Keeps accept_command_send i (fill accept_commands s) _ _ _ _ e f
      (λ n c g. enter-Keeps accept_command_send i readable n _ prompted refl)

pub handle_get_chunks_send_ok-Keeps :
    (s : TestState) (i : Interest)
    → s.measurement_state ≡ get_chunk_send_ok
    → s.stream.interest ≡ i
    → Keeps get_chunk_send_ok i (handle_get_chunks_send_ok s)
unfolding handle_get_chunks_send_ok
handle_get_chunks_send_ok-Keeps s i e f =
    written-Keeps get_chunk_send_ok i (fill ok_line s) _ _ _ _ e f
      (λ n c g. enter-Keeps get_chunk_send_ok i writable n _ chunks_ok refl)

pub handle_put_no_result_send_ok-Keeps :
    (s : TestState) (i : Interest)
    → s.measurement_state ≡ put_no_result_send_ok
    → s.stream.interest ≡ i
    → Keeps put_no_result_send_ok i (handle_put_no_result_send_ok s)
unfolding handle_put_no_result_send_ok
handle_put_no_result_send_ok-Keeps s i e f =
    written-Keeps put_no_result_send_ok i (fill ok_line s) _ _ _ _ e f
      (λ n c g. enter-Keeps put_no_result_send_ok i readable n _ no_result_ready refl)

pub handle_ping_send_time-Keeps :
    (s : TestState) (i : Interest)
    → s.measurement_state ≡ ping_send_time
    → s.stream.interest ≡ i
    → Keeps ping_send_time i (handle_ping_send_time s)
unfolding handle_ping_send_time
handle_ping_send_time-Keeps s i e f = unwrap-Keeps ping_send_time i s.time_ns s _ (λ time.
    written-Keeps ping_send_time i (fill (time_line time) s) _ _ _ _ e f
      (λ n c g. enter-Keeps ping_send_time i writable n _ ping_reported refl))

pub handle_put_send_time-Keeps :
    (s : TestState) (i : Interest)
    → s.measurement_state ≡ put_send_time
    → s.stream.interest ≡ i
    → Keeps put_send_time i (handle_put_send_time s)
unfolding handle_put_send_time
handle_put_send_time-Keeps s i e f = unwrap-Keeps put_send_time i s.time_ns s _ (λ time.
    written-Keeps put_send_time i (fill (time_line time) s) _ _ _ _ e f
      (λ n c g. enter-Keeps put_send_time i writable n _ put_reported refl))

pub handle_put_no_result_send_time-Keeps :
    (s : TestState) (i : Interest)
    → s.measurement_state ≡ put_no_result_send_time
    → s.stream.interest ≡ i
    → Keeps put_no_result_send_time i (handle_put_no_result_send_time s)
unfolding handle_put_no_result_send_time
handle_put_no_result_send_time-Keeps s i e f =
    unwrap-Keeps put_no_result_send_time i s.time_ns s _ (λ time.
      written-Keeps put_no_result_send_time i (fill (time_line time) s) _ _ _ _ e f
        (λ n c g. enter-Keeps put_no_result_send_time i writable n _ no_result_reported refl))
