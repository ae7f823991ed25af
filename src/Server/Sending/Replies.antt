-- ===== src/Server/Sending/Replies.antt =====
-- Every handler of the server that sends a reply from its write buffer, one theorem for each.
use mathlib.Core.Path.{subst}
use nettest.Common.{
  replicate, refl, ℕ, List, [], ◌∷◌, ◌++◌, Option, none, some, Bytes, length, ◌≡◌, ◌≢◌, arith,
}
use nettest.Net.{
  ErrorKind, would_block, timed_out, unexpected_eof, other, Outcome, ok, err, Cursor, Registration,
  registered, refused, ZeroWrite, is_zero, is_eof, ignored, flush, Flush, flush_by, reregister_by,
  Interest, writable, readable,
}
use nettest.Net.Loop.{Kept}
use nettest.Server.{
  ServerTestPhase, TestState, enter, fill, write_to, then_stream, unwrap, accept_command_receive,
  accept_command_send, get_chunk_send_chunk, get_chunk_send_ok, greeting_receive_token,
  greeting_send_accept_token, greeting_send_chunksize, greeting_send_ok, greeting_send_version,
  ping_send_time, put_no_result_receive_chunk, put_no_result_send_ok, put_no_result_send_time,
  put_send_time,
}
use nettest.Server.Sending.{take_all, IsSending, Sends, write_to-Sends, fill-loaded}
use nettest.Server.Greeting.{
  version, handle_greeting_send_version, handle_greeting_send_accept_token, accept_token, ok_line,
  chunk_size_msg, handle_greeting_send_ok, handle_greeting_send_chunksize,
}
use nettest.Server.Command.{accept_commands, handle_main_command_send}
use nettest.Server.GetChunks.{handle_get_chunks_send_ok, time_line}
use nettest.Server.Ping.{handle_ping_send_time}
use nettest.Server.Put.{handle_put_send_time}
use nettest.Server.PutNoResult.{handle_put_no_result_send_ok, handle_put_no_result_send_time}

module _ (m base : Bytes) (p next : ServerTestPhase) where
  abbrev pub Q : Outcome TestState → Type 0
  Q = Sends m base p next

  -- An error before the message is complete leaves the handler ready to go on.
  pub stay-Sends :
      (e : ErrorKind) (t : TestState) → t.measurement_state ≡ p → IsSending m base t → Q (err e t)
  stay-Sends would_block t h k = (h, k)
  stay-Sends timed_out t h k = (t.write_pos, k.sent)
  stay-Sends unexpected_eof t h k = (t.write_pos, k.sent)
  stay-Sends other t h k = (t.write_pos, k.sent)

  -- The message is complete: the handler's last steps.
  pub enter-Sends :
      (i : Interest) (n : ℕ) (t : TestState)
      → t.write_pos ≡ 0
      → t.stream.sent ≡ base ++ m
      → Q (enter next i n t)
  unfolding enter then_stream
  enter-Sends i n t h k = go t.stream.registrations
    where
      go :
          (rs : List Registration)
          → Q (
              then_stream
                (record t { measurement_state = next })
                (reregister_by rs i t.stream)
                (λ u. ok n u))
      go [] = (refl, h, k)
      go (registered ∷ rs) = (refl, h, k)
      go (refused ∷ rs) = (length m, ground (arith, take_all m))

  pub flush-Sends :
      (i : Interest) (n : ℕ) (t : TestState)
      → t.write_pos ≡ 0
      → t.stream.flushes ≡ []
      → t.stream.sent ≡ base ++ m
      → Q (then_stream t (flush t.stream) (λ v. enter next i n v))
  unfolding flush then_stream enter
  flush-Sends i n t h f k = go t.stream.flushes f
    where
      go :
          (fs : List Flush)
          → fs ≡ []
          → Q (then_stream t (flush_by fs t.stream) (λ v. enter next i n v))
      go [] e = enter-Sends i n t h k
      go (x ∷ fs) e = cc

  -- The message is put into the buffer, which is then written.
  pub filled-Sends :
      (z : ZeroWrite) (s : TestState) (k : ℕ → TestState → Outcome TestState)
      → z ≢ is_zero
      → s.measurement_state ≡ p
      → IsSending m base s
      → ((n : ℕ) (c : Cursor)
          → c.stream.sent ≡ base ++ m
          → Kept s.stream c.stream
          → Q (k n (record (fill m s) { stream = c.stream; write_pos = c.pos })))
      → Q (write_to z (fill m s).write_buffer (length m) (fill m s) k)
  filled-Sends z s k nz e h done =
      write_to-Sends z m base (fill m s) k Q nz
        (record {
          within = h.within;
          fits = (fill-loaded m base s h).1;
          sent = h.sent;
          loaded = λ _. (fill-loaded m base s h).0;
        })
        (fill-loaded m base s h).0 done (λ x c g. stay-Sends x _ e g)

  pub unwrap-Sends :
      {A : Type 0} (o : Option A) {a : A} (s : TestState) (k : A → Outcome TestState)
      → o ≡ some a
      → Q (k a)
      → Q (unwrap o s k)
  unfolding unwrap
  unwrap-Sends none s k e h = cc
  unwrap-Sends (some b) {a} s k e h = let g : a ≡ b = cc in subst (λ x. Q (k x)) g h

pub send_version_lem :
    (s : TestState) (base : Bytes)
    → s.measurement_state ≡ greeting_send_version
    → s.stream.flushes ≡ []
    → IsSending version base s
    → Sends version base greeting_send_version greeting_send_accept_token
        (handle_greeting_send_version s)
unfolding handle_greeting_send_version
send_version_lem s base e f h =
    filled-Sends version base greeting_send_version greeting_send_accept_token is_eof s _ (cc) e h
      (λ n c k kept.
        flush-Sends version base greeting_send_version greeting_send_accept_token writable n _ refl
          (cc) k)

pub send_accept_token_lem :
    (s : TestState) (base : Bytes)
    → s.measurement_state ≡ greeting_send_accept_token
    → s.stream.flushes ≡ []
    → IsSending accept_token base s
    → Sends accept_token base greeting_send_accept_token greeting_receive_token
        (handle_greeting_send_accept_token s)
unfolding handle_greeting_send_accept_token
send_accept_token_lem s base e f h =
    filled-Sends accept_token base greeting_send_accept_token greeting_receive_token is_eof s _ (cc)
      e h
      (λ n c k kept.
        flush-Sends accept_token base greeting_send_accept_token greeting_receive_token readable n _
          refl (cc) k)

pub greeting_ok_lem :
    (s : TestState) (base : Bytes)
    → s.measurement_state ≡ greeting_send_ok
    → IsSending ok_line base s
    → Sends ok_line base greeting_send_ok greeting_send_chunksize (handle_greeting_send_ok s)
unfolding handle_greeting_send_ok
greeting_ok_lem s base e h =
    filled-Sends ok_line base greeting_send_ok greeting_send_chunksize ignored s _ (cc) e h
      (λ n c k kept.
        enter-Sends ok_line base greeting_send_ok greeting_send_chunksize writable n
          (record (fill ok_line s) { stream = c.stream; write_pos = 0 }) refl k)

pub chunksize_lem :
    (s : TestState) (base : Bytes)
    → s.measurement_state ≡ greeting_send_chunksize
    → IsSending chunk_size_msg base s
    → Sends chunk_size_msg base greeting_send_chunksize accept_command_send
        (handle_greeting_send_chunksize s)
unfolding handle_greeting_send_chunksize
chunksize_lem s base e h =
    filled-Sends chunk_size_msg base greeting_send_chunksize accept_command_send ignored s _ (cc) e
      h
      (λ n c k kept.
        enter-Sends chunk_size_msg base greeting_send_chunksize accept_command_send writable n
          (record (fill chunk_size_msg s) { stream = c.stream; write_pos = 0 }) refl k)

pub commands_lem :
    (s : TestState) (base : Bytes)
    → s.measurement_state ≡ accept_command_send
    → IsSending accept_commands base s
    → Sends accept_commands base accept_command_send accept_command_receive
        (handle_main_command_send s)
unfolding handle_main_command_send
commands_lem s base e h =
    filled-Sends accept_commands base accept_command_send accept_command_receive ignored s _ (cc) e
      h
      (λ n c k kept.
        enter-Sends accept_commands base accept_command_send accept_command_receive readable n
          (record (fill accept_commands s) { stream = c.stream; write_pos = 0; read_pos = 0 }) refl
          k)

pub chunks_ok_lem :
    (s : TestState) (base : Bytes)
    → s.measurement_state ≡ get_chunk_send_ok
    → IsSending ok_line base s
    → Sends ok_line base get_chunk_send_ok get_chunk_send_chunk (handle_get_chunks_send_ok s)
unfolding handle_get_chunks_send_ok
chunks_ok_lem s base e h =
    filled-Sends ok_line base get_chunk_send_ok get_chunk_send_chunk ignored s _ (cc) e h
      (λ n c k kept.
        enter-Sends ok_line base get_chunk_send_ok get_chunk_send_chunk writable n
          (record (fill ok_line s) { stream = c.stream; write_pos = 0 }) refl k)

pub put_no_result_ok_lem :
    (s : TestState) (base : Bytes)
    → s.measurement_state ≡ put_no_result_send_ok
    → IsSending ok_line base s
    → Sends ok_line base put_no_result_send_ok put_no_result_receive_chunk
        (handle_put_no_result_send_ok s)
unfolding handle_put_no_result_send_ok
put_no_result_ok_lem s base e h =
    filled-Sends ok_line base put_no_result_send_ok put_no_result_receive_chunk is_eof s _ (cc) e h
      (λ n c k kept.
        enter-Sends ok_line base put_no_result_send_ok put_no_result_receive_chunk readable n
          (record (fill ok_line s) {
            stream = c.stream;
            write_pos = 0;
            read_pos = 0;
            chunk_buffer = replicate s.chunk_size 0;
            clock = some c.stream.now;
          })
          refl k)

pub ping_time_lem :
    (s : TestState) (base : Bytes) (time : ℕ)
    → s.measurement_state ≡ ping_send_time
    → s.time_ns ≡ some time
    → IsSending (time_line time) base s
    → Sends (time_line time) base ping_send_time accept_command_send (handle_ping_send_time s)
unfolding handle_ping_send_time
ping_time_lem s base time e f h =
    unwrap-Sends (time_line time) base ping_send_time accept_command_send s.time_ns s _ f (
      filled-Sends (time_line time) base ping_send_time accept_command_send ignored s _ (cc) e h
        (λ n c k kept.
          enter-Sends (time_line time) base ping_send_time accept_command_send writable n
            (record (fill (time_line time) s) { stream = c.stream; write_pos = 0; read_pos = 0 })
            refl k))

pub put_time_lem :
    (s : TestState) (base : Bytes) (time : ℕ)
    → s.measurement_state ≡ put_send_time
    → s.time_ns ≡ some time
    → IsSending (time_line time) base s
    → Sends (time_line time) base put_send_time accept_command_send (handle_put_send_time s)
unfolding handle_put_send_time
put_time_lem s base time e f h =
    unwrap-Sends (time_line time) base put_send_time accept_command_send s.time_ns s _ f (
      filled-Sends (time_line time) base put_send_time accept_command_send is_eof s _ (cc) e h
        (λ n c k kept.
          enter-Sends (time_line time) base put_send_time accept_command_send writable n
            (record (fill (time_line time) s) { stream = c.stream; write_pos = 0; read_pos = 0 })
            refl k))

pub put_no_result_time_lem :
    (s : TestState) (base : Bytes) (time : ℕ)
    → s.measurement_state ≡ put_no_result_send_time
    → s.time_ns ≡ some time
    → IsSending (time_line time) base s
    → Sends
        (time_line time)
        base
        put_no_result_send_time
        accept_command_send
        (handle_put_no_result_send_time s)
unfolding handle_put_no_result_send_time
put_no_result_time_lem s base time e f h =
    unwrap-Sends (time_line time) base put_no_result_send_time accept_command_send s.time_ns s _ f (
      filled-Sends (time_line time) base put_no_result_send_time accept_command_send is_eof s _ (cc)
        e h
        (λ n c k kept.
          enter-Sends (time_line time) base put_no_result_send_time accept_command_send writable n
            (record (fill (time_line time) s) { stream = c.stream; write_pos = 0; read_pos = 0 })
            refl k))
