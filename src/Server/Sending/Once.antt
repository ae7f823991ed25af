-- ===== src/Server/Sending/Once.antt =====
-- The replies of the server, phase by phase (src/mioserver/handlers).
use nettest.Common.{
  List, ◌∷◌, arith, ℕ, Option, none, some, Bytes, ◌++◌, ◌≡◌, refl, sym, [], replicate, length,
}
use nettest.Net.{
  Outcome, ignored, is_eof, readable, reregister, reregister_by, ok, write_loop, registered,
  refused, Registration,
}
use nettest.Server.{
  ServerTestPhase, TestState, fill, enter, write_to, greeting_send_version,
  greeting_send_accept_token, greeting_receive_token, greeting_send_ok, greeting_send_chunksize,
  accept_command_send, accept_command_receive, get_chunk_send_ok, get_chunk_send_chunk, pong_send,
  ping_receive_ok, ping_send_time, put_send_ok, put_receive_chunk, put_send_time,
  put_no_result_send_ok, put_no_result_receive_chunk, put_no_result_send_time,
  put_time_result_send_ok, put_time_result_receive_chunk, then_stream,
}
use nettest.Chunks.{Filler}
use nettest.Server.Greeting.{version, accept_token, ok_line, chunk_size_msg}
use nettest.Server.Command.{accept_commands}
use nettest.Server.GetChunks.{time_line}
use nettest.Server.GetTime.{start_clock}
use nettest.Server.Ping.{pong, handle_pong_send}
use nettest.Server.Put.{handle_put_send_ok}
use nettest.Server.PutTimeResult.{restart, handle_put_time_result_send_ok}
use mathlib.Core.Path.{subst}
use nettest.Server.Dispatch.{write_dispatch, handle_client_writable_data}
use nettest.Server.Sending.{IsSending, Sends}
use nettest.Server.Sending.Replies

-- The protocol: the reply that a phase sends, and the phase that follows it.
pub data Reply (s : TestState) : ServerTestPhase → Bytes → ServerTestPhase → Type 0 where
  version_reply : Reply s greeting_send_version version greeting_send_accept_token
  accept_token_reply : Reply s greeting_send_accept_token accept_token greeting_receive_token
  token_ok : Reply s greeting_send_ok ok_line greeting_send_chunksize
  chunk_size_reply : Reply s greeting_send_chunksize chunk_size_msg accept_command_send
  prompt : Reply s accept_command_send accept_commands accept_command_receive
  chunks_ok : Reply s get_chunk_send_ok ok_line get_chunk_send_chunk
  pong_reply : Reply s pong_send pong ping_receive_ok
  ping_time :
      {t : ℕ} → s.time_ns ≡ some t → Reply s ping_send_time (time_line t) accept_command_send
  put_ok : Reply s put_send_ok ok_line put_receive_chunk
  put_time : {t : ℕ} → s.time_ns ≡ some t → Reply s put_send_time (time_line t) accept_command_send
  put_no_result_ok : Reply s put_no_result_send_ok ok_line put_no_result_receive_chunk
  put_no_result_time :
      {t : ℕ}
      → s.time_ns ≡ some t
      → Reply s put_no_result_send_time (time_line t) accept_command_send
  put_time_result_ok :
      (s.clock ≡ none → s.write_pos ≡ 0)
      → Reply s put_time_result_send_ok ok_line put_time_result_receive_chunk

abbrev pong_end : ℕ → TestState → Outcome TestState
unfolding reregister
pong_end n t =
    then_stream t (reregister readable t.stream)
      (λ u. ok n (record u { write_pos = 0; measurement_state = ping_receive_ok }))

pong_end-Sends :
    (n : ℕ) (t : TestState) (base : Bytes)
    → t.stream.sent ≡ base ++ pong
    → Sends pong base pong_send ping_receive_ok (pong_end n t)
unfolding reregister then_stream
pong_end-Sends n t base h = go t.stream.registrations
  where
    go :
        (rs : List Registration)
        → Sends pong base pong_send ping_receive_ok (
            then_stream t
              (reregister_by rs readable t.stream)
              (λ u. ok n (record u { write_pos = 0; measurement_state = ping_receive_ok })))
    go [] = (refl, refl, h)
    go (registered ∷ rs) = (refl, refl, h)
    go (refused ∷ rs) = (length pong, h)

-- The handlers that may start the clock first, for either value of it.
pong_from :
    (c : Option ℕ) (s : TestState) (base : Bytes)
    → s.measurement_state ≡ pong_send
    → IsSending pong base s
    → Sends pong base pong_send ping_receive_ok (
        let t = start_clock c (fill pong s) in
        write_to ignored t.write_buffer (length pong) t pong_end)
unfolding write_loop reregister
pong_from none s base e h =
    Replies.filled-Sends pong base pong_send ping_receive_ok ignored
      (record s { clock = some s.stream.now }) pong_end (cc) e
      (record { within = h.within; fits = h.fits; sent = h.sent; loaded = h.loaded })
      (λ n c k kept. pong_end-Sends n _ base k)
pong_from (some t) s base e h =
    Replies.filled-Sends pong base pong_send ping_receive_ok ignored s pong_end (cc) e h
      (λ n c k kept. pong_end-Sends n _ base k)

pong_lem :
    (s : TestState) (base : Bytes)
    → s.measurement_state ≡ pong_send
    → IsSending pong base s
    → Sends pong base pong_send ping_receive_ok (handle_pong_send s)
unfolding handle_pong_send pong_end
pong_lem s base e h = pong_from s.clock s base e h

abbrev put_end : ℕ → TestState → Outcome TestState
unfolding enter
put_end n t =
    enter put_receive_chunk readable n
      (record t { write_pos = 0; read_pos = 0; chunk_buffer = replicate t.chunk_size 0 })

put_from :
    (c : Option ℕ) (s : TestState) (base : Bytes)
    → s.measurement_state ≡ put_send_ok
    → IsSending ok_line base s
    → Sends ok_line base put_send_ok put_receive_chunk (
        let t = start_clock c (fill ok_line s) in
        write_to is_eof t.write_buffer (length ok_line) t put_end)
unfolding write_loop enter
put_from none s base e h =
    Replies.filled-Sends ok_line base put_send_ok put_receive_chunk is_eof
      (record s { clock = some s.stream.now }) put_end (cc) e
      (record { within = h.within; fits = h.fits; sent = h.sent; loaded = h.loaded })
      (λ n c k kept.
        Replies.enter-Sends ok_line base put_send_ok put_receive_chunk readable n
          (record (fill ok_line s) {
            stream = c.stream;
            write_pos = 0;
            read_pos = 0;
            chunk_buffer = replicate s.chunk_size 0;
            clock = some s.stream.now;
          })
          refl k)
put_from (some t) s base e h =
    Replies.filled-Sends ok_line base put_send_ok put_receive_chunk is_eof s put_end (cc) e h
      (λ n c k kept.
        Replies.enter-Sends ok_line base put_send_ok put_receive_chunk readable n
          (record (fill ok_line s) {
            stream = c.stream;
            write_pos = 0;
            read_pos = 0;
            chunk_buffer = replicate s.chunk_size 0;
          })
          refl k)

put_lem :
    (s : TestState) (base : Bytes)
    → s.measurement_state ≡ put_send_ok
    → IsSending ok_line base s
    → Sends ok_line base put_send_ok put_receive_chunk (handle_put_send_ok s)
unfolding handle_put_send_ok put_end
put_lem s base e h = put_from s.clock s base e h

abbrev result_end : ℕ → TestState → Outcome TestState
unfolding enter
result_end n t = enter put_time_result_receive_chunk readable n (record t {
  write_pos = 0;
  read_pos = 0;
  chunk_buffer = replicate t.chunk_size 0;
  clock = some t.stream.now;
})

result_from :
    (c : Option ℕ) (s : TestState) (base : Bytes)
    → s.measurement_state ≡ put_time_result_send_ok
    → (c ≡ none → s.write_pos ≡ 0)
    → IsSending ok_line base s
    → Sends ok_line base put_time_result_send_ok put_time_result_receive_chunk (
        let t = fill ok_line (restart c s) in
        write_to is_eof t.write_buffer (length ok_line) t result_end)
unfolding write_loop enter
result_from none s base e first h =
    Replies.filled-Sends ok_line base put_time_result_send_ok put_time_result_receive_chunk is_eof
      (restart none s) result_end (cc) e
      (record {
        within = omega arith;
        fits = h.fits;
        sent = ground (arith, first refl, h.sent);
        loaded = λ g. absurd (g refl);
      })
      (λ n c k kept.
        Replies.enter-Sends ok_line base put_time_result_send_ok put_time_result_receive_chunk
          readable n
          (record (fill ok_line (restart none s)) {
            stream = c.stream;
            write_pos = 0;
            read_pos = 0;
            chunk_buffer = replicate s.chunk_size 0;
            clock = some c.stream.now;
          })
          refl k)
result_from (some t) s base e first h =
    Replies.filled-Sends ok_line base put_time_result_send_ok put_time_result_receive_chunk is_eof s
      result_end (cc) e h
      (λ n c k kept.
        Replies.enter-Sends ok_line base put_time_result_send_ok put_time_result_receive_chunk
          readable n
          (record (fill ok_line s) {
            stream = c.stream;
            write_pos = 0;
            read_pos = 0;
            chunk_buffer = replicate s.chunk_size 0;
            clock = some c.stream.now;
          })
          refl k)

result_lem :
    (s : TestState) (base : Bytes)
    → s.measurement_state ≡ put_time_result_send_ok
    → (s.clock ≡ none → s.write_pos ≡ 0)
    → IsSending ok_line base s
    → Sends ok_line base put_time_result_send_ok put_time_result_receive_chunk
        (handle_put_time_result_send_ok s)
unfolding handle_put_time_result_send_ok result_end
result_lem s base e first h = result_from s.clock s base e first h

module _ (random : Filler) where
  dispatched :
      (s : TestState) (base : Bytes) {p next : ServerTestPhase} {m : Bytes}
      → Reply s p m next
      → s.measurement_state ≡ p
      → s.stream.flushes ≡ []
      → IsSending m base s
      → Sends m base p next (write_dispatch random p s)
  unfolding write_dispatch
  dispatched s base version_reply e f h = Replies.send_version_lem s base e f h
  dispatched s base accept_token_reply e f h = Replies.send_accept_token_lem s base e f h
  dispatched s base token_ok e f h = Replies.greeting_ok_lem s base e h
  dispatched s base chunk_size_reply e f h = Replies.chunksize_lem s base e h
  dispatched s base prompt e f h = Replies.commands_lem s base e h
  dispatched s base chunks_ok e f h = Replies.chunks_ok_lem s base e h
  dispatched s base pong_reply e f h = pong_lem s base e h
  dispatched s base (ping_time g) e f h = Replies.ping_time_lem s base _ e g h
  dispatched s base put_ok e f h = put_lem s base e h
  dispatched s base (put_time g) e f h = Replies.put_time_lem s base _ e g h
  dispatched s base put_no_result_ok e f h = Replies.put_no_result_ok_lem s base e h
  dispatched s base (put_no_result_time g) e f h = Replies.put_no_result_time_lem s base _ e g h
  dispatched s base (put_time_result_ok first) e f h = result_lem s base e first h

-- A connection that is writable in a phase that sends one of the replies of `Reply`, which are the
-- greeting, the prompts and OKs, PONG and the TIME of a PING, a PUT and a PUTNORESULT, with the first
-- `write_pos` bytes of the reply `m` behind `base` sent and no flush failing: if the handler returns normally, exactly `base`
-- and `m` have been sent, the position is 0 and the phase is the next one; if it would block, the
-- phase is the same and the connection is in that state again; on any other error nothing but
-- `base` and a first part of `m` has been sent; and it does not panic. So it is for every way the
-- socket takes the bytes.
pub message_sent_once :
    (random : Filler) (s : TestState) (base : Bytes) {p next : ServerTestPhase} {m : Bytes}
    → Reply s p m next
    → s.measurement_state ≡ p
    → s.stream.flushes ≡ []
    → IsSending m base s
    → Sends m base p next (handle_client_writable_data random s)
unfolding handle_client_writable_data
message_sent_once random s base {p} {next} {m} r e f h =
    subst (λ q. Sends m base p next (write_dispatch random q s)) (sym e)
      (dispatched random s base r e f h)
