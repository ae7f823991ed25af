-- ===== src/Server/Handshake.antt =====
-- The HTTP upgrade of a new connection (`handle_greeting_receive_connection_type` of
-- src/mioserver/worker.rs).
--
-- The clock counts nanoseconds. The regular expression, the WebSocket upgrade and the closing of a
-- socket are calls of libraries.
pub mod Registered
use nettest.Common.{
  ℕ, ◌-◌, Bool, true, false, ◌||◌, List, [], ◌∷◌, ◌++◌, Option, none, some, Bytes, codes, length,
  take, contains, ends_at, replicate, ltb, if◌then◌else◌,
}
use nettest.Net.{
  Outcome, ok, err, panic, would_block, timed_out, ErrorKind, Stream, Reader, ReadCall, WriteCall,
  read, write, final, reregister, writable,
}

-- What the worker finds outside: whether a request asks for a WebSocket, the stream that the upgrade
-- leaves if it does not panic, and whether a socket can be closed.
pub record Upgrades : Type 0 where
  pub is_websocket : Bytes → Bool
  pub upgrade : Bytes → Stream → Option Stream
  pub close : Stream → Bool

-- One call of the poll: the time at which its own time limit is computed, the time at which it returns
-- and whether each event is readable, or an error.
pub data PollAnswer : Type 0 where
  polled : ℕ → ℕ → List Bool → PollAnswer
  poll_fails : ErrorKind → PollAnswer

-- `result` and `loop_flag`.
pub record Handshake : Type 0 where
  pub stream : Stream
  pub received : Bytes
  pub finished : Bool

-- How a part of the function ends: it goes on, returns an error, or panics.
pub data Shaken : Type 0 where
  shaken : Handshake → Shaken
  refused : ErrorKind → Shaken
  crashed : Shaken

abbrev pub rmbt_upgrade : Bytes
rmbt_upgrade =
    codes "HTTP/1.1 101 Switching Protocols\r\nConnection: Upgrade\r\nUpgrade: RMBT\r\n\r\n"

abbrev pub handshake_timeout : ℕ
handshake_timeout = 3000000000

abbrev pub is_complete : Bytes → Bool
is_complete r = ends_at (codes "\r\n\r\n") r (length r) || contains (codes "\r\n\r\n") r

abbrev pub shake_stream : Handshake → Stream → Handshake
shake_stream h s = record h { stream = s }

-- `stream.reregister(&self.poll, token, Interest::WRITABLE)?; loop_flag = true`.
abbrev pub finish_by : Handshake → Outcome Stream → Shaken
finish_by h (ok n s) = shaken (record h { stream = s; finished = true })
finish_by h (err e s) = refused e
finish_by h (panic s) = crashed

unfoldable pub finish : Handshake → Shaken
finish h = finish_by h (reregister writable h.stream)

-- One write of the answer; what it returns is only logged.
abbrev pub answer_by : List WriteCall → Stream → Stream
answer_by [] s = s
answer_by (w ∷ ws) s = final (write rmbt_upgrade w (record s { writes = ws }))

abbrev pub upgraded : Handshake → Option Stream → Shaken
upgraded h none = crashed
upgraded h (some s) = finish (shake_stream h s)

-- The buffer of 1024 bytes in front of a read, the calls behind it being still to come.
abbrev pub request_buffer : List ReadCall → Handshake → Reader
request_buffer cs h = record {
  stream = record h.stream { reads = cs };
  buffer = replicate 1024 0;
  pos = 0;
}

abbrev pub at_time : ℕ → Handshake → Handshake
at_time t h = shake_stream h (record h.stream { now = t })

module _ (lib : Upgrades) where
  unfoldable pub respond : Handshake → Shaken
  respond h =
      if lib.is_websocket h.received
      then upgraded h (lib.upgrade h.received h.stream)
      else finish (shake_stream h (answer_by h.stream.writes h.stream))

  abbrev pub received_more : Handshake → Shaken
  received_more h = if is_complete h.received then respond h else shaken h

  abbrev pub read_by : Handshake → Outcome Reader → Shaken
  read_by h (ok n r) =
      received_more (record h { stream = r.stream; received = h.received ++ take n r.buffer })
  read_by h (err would_block r) = shaken (shake_stream h r.stream)
  read_by h (err e r) = refused e
  read_by h (panic r) = crashed

  abbrev pub read_more : List ReadCall → Handshake → Shaken
  read_more [] h = shaken h
  read_more (c ∷ cs) h = read_by h (read 0 c (request_buffer cs h))

  -- The loop over the events; one that is not readable is passed over.
  unfoldable pub shake_events : List Bool → Handshake → Shaken
  shake_events [] h = shaken h
  shake_events (false ∷ es) h = shake_events es h
  shake_events (true ∷ es) h = elim (read_more h.stream.reads h) [
    | shaken g ↦ shake_events es g
    | refused e ↦ refused e
    | crashed ↦ crashed
  ]

  abbrev pub time_out : Handshake → Shaken
  time_out h = if lib.close h.stream then refused timed_out else crashed

  -- One round behind the test of the time: `timeout - start_time.elapsed()` panics below zero.
  abbrev pub shake_poll : ℕ → PollAnswer → Handshake → Shaken
  shake_poll start (poll_fails e) h = refused e
  shake_poll start (polled asked t es) h =
      if ltb handshake_timeout (asked - start) then crashed else shake_events es (at_time t h)

  -- `while !loop_flag`. When no answer of the poll is left, the time is over.
  unfoldable pub shake_loop : ℕ → List PollAnswer → Handshake → Shaken
  shake_loop start [] h = if h.finished then shaken h else time_out h
  shake_loop start (p ∷ ps) h = elim (h.finished) [
    | true ↦ shaken h
    | false ↦ elim (ltb handshake_timeout (h.stream.now - start)) [
      | true ↦ time_out h
      | false ↦ elim (shake_poll start p h) [
        | shaken g ↦ shake_loop start ps g
        | refused e ↦ refused e
        | crashed ↦ crashed
      ]
    ]
  ]

  unfoldable pub handle_greeting_receive_connection_type : List PollAnswer → Stream → Shaken
  handle_greeting_receive_connection_type ps s =
      shake_loop s.now ps (record { stream = s; received = []; finished = false })
