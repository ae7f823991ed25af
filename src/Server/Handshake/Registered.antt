-- ===== src/Server/Handshake/Registered.antt =====
-- How the stream of a connection stands behind the HTTP upgrade (src/mioserver/worker.rs).
use nettest.Common.{
  ◌∙◌, arith, ℕ, ◌-◌, Bool, true, false, List, [], ◌∷◌, ◌++◌, Option, none, some, take, ltb,
  if_cases, ◌≡◌, refl,
}
use nettest.Net.{
  final, Outcome, ok, err, panic, would_block, timed_out, unexpected_eof, other, Stream, Reader,
  ReadCall, arrive, read_fails, read_upto, read, reregister, reregister_by, writable,
}
use nettest.Server.Handshake.{
  at_time, request_buffer, upgraded, received_more, is_complete, Upgrades, PollAnswer, polled,
  poll_fails, Handshake, Shaken, shaken, refused, crashed, finish, respond, shake_events,
  shake_poll, shake_loop, handle_greeting_receive_connection_type, time_out, read_more, read_by,
  handshake_timeout,
}

-- Once the loop's flag is set, the stream is registered for writing.
abbrev Registers : Shaken → Type 0
Registers (shaken h) = h.finished ≡ true → h.stream.interest ≡ writable
Registers _ = Unit

finish-Registers : (h : Handshake) → Registers (finish h)
unfolding finish reregister reregister_by
finish-Registers h = ground arith

upgraded-Registers : (h : Handshake) (o : Option Stream) → Registers (upgraded h o)
upgraded-Registers h none = tt
upgraded-Registers h (some s) = finish-Registers (record h { stream = s })

module _ (lib : Upgrades) where
  respond-Registers : (h : Handshake) → Registers (respond lib h)
  unfolding respond
  respond-Registers h =
      if_cases Registers (lib.is_websocket h.received)
        (λ e. upgraded-Registers h (lib.upgrade h.received h.stream)) (λ e. finish-Registers _)

  received_more-Registers : (h : Handshake) → Registers (shaken h) → Registers (received_more lib h)
  received_more-Registers h k =
      if_cases Registers (is_complete h.received) (λ e. respond-Registers h) (λ e. k)

  read_by-Registers :
      (h : Handshake) (o : Outcome Reader)
      → (final o).stream.interest ≡ h.stream.interest
      → Registers (shaken h)
      → Registers (read_by lib h o)
  read_by-Registers h (ok n r) e k =
      received_more-Registers
        (record h { stream = r.stream; received = h.received ++ take n r.buffer }) (λ f. e ∙ k f)
  read_by-Registers h (err would_block r) e k = λ f. e ∙ k f
  read_by-Registers h (err timed_out r) e k = tt
  read_by-Registers h (err unexpected_eof r) e k = tt
  read_by-Registers h (err other r) e k = tt
  read_by-Registers h (panic r) e k = tt

  read_more-Registers :
      (cs : List ReadCall) (h : Handshake) → Registers (shaken h) → Registers (read_more lib cs h)
  unfolding read read_upto
  read_more-Registers [] h k = k
  read_more-Registers (arrive t bs ∷ cs) h k =
      read_by-Registers h (read 0 (arrive t bs) (request_buffer cs h)) refl k
  read_more-Registers (read_fails t e ∷ cs) h k =
      read_by-Registers h (read 0 (read_fails t e) (request_buffer cs h)) refl k

  then-Registers :
      (o : Shaken) (f : Handshake → Shaken)
      → Registers o
      → ((h : Handshake) → Registers (shaken h) → Registers (f h))
      → Registers (elim o [ shaken g ↦ f g | refused e ↦ refused e | crashed ↦ crashed ])
  then-Registers (shaken g) f h k = k g h
  then-Registers (refused e) f h k = tt
  then-Registers crashed f h k = tt

  shake_events-Registers :
      (es : List Bool) (h : Handshake) → Registers (shaken h) → Registers (shake_events lib es h)
  unfolding shake_events
  shake_events-Registers [] h k = k
  shake_events-Registers (false ∷ es) h k = shake_events-Registers es h k
  shake_events-Registers (true ∷ es) h k =
      then-Registers (read_more lib h.stream.reads h) (shake_events lib es)
        (read_more-Registers h.stream.reads h k) (λ g. shake_events-Registers es g)

  shake_poll-Registers :
      (start : ℕ) (p : PollAnswer) (h : Handshake)
      → Registers (shaken h)
      → Registers (shake_poll lib start p h)
  shake_poll-Registers start (poll_fails e) h k = tt
  shake_poll-Registers start (polled asked t es) h k =
      if_cases Registers (ltb handshake_timeout (asked - start)) (λ e. tt)
        (λ e. shake_events-Registers es (at_time t h) k)

  -- A function that returns a stream leaves it registered for writing.
  abbrev pub Ready : Shaken → Type 0
  Ready (shaken h) = h.stream.interest ≡ writable
  Ready _ = Unit

  time_out-Ready : (h : Handshake) → Ready (time_out lib h)
  time_out-Ready h = if_cases Ready (lib.close h.stream) (λ e. tt) (λ e. tt)

  round-Ready :
      (h : Handshake) (done late : Bool) (o : Shaken) (next : Handshake → Shaken)
      → (done ≡ true → h.stream.interest ≡ writable)
      → Registers o
      → ((g : Handshake) → Registers (shaken g) → Ready (next g))
      → Ready (elim done [
        | true ↦ shaken h
        | false ↦ elim late [
          | true ↦ time_out lib h
          | false ↦ elim o [ shaken g ↦ next g | refused e ↦ refused e | crashed ↦ crashed ]
        ]
      ])
  round-Ready h true late o next d q later = d refl
  round-Ready h false true o next d q later = time_out-Ready h
  round-Ready h false false (shaken g) next d q later = later g q
  round-Ready h false false (refused e) next d q later = tt
  round-Ready h false false crashed next d q later = tt

  shake_loop-Ready :
      (start : ℕ) (ps : List PollAnswer) (h : Handshake)
      → Registers (shaken h)
      → Ready (shake_loop lib start ps h)
  unfolding shake_loop
  shake_loop-Ready start [] h k = if_cases Ready h.finished k (λ e. time_out-Ready h)
  shake_loop-Ready start (p ∷ ps) h k =
      round-Ready h h.finished (ltb handshake_timeout (h.stream.now - start))
        (shake_poll lib start p h) (shake_loop lib start ps) k (shake_poll-Registers start p h k)
        (λ g q. shake_loop-Ready start ps g q)

  -- A connection that is upgraded, by either protocol, is registered for writing, which is what the
  -- greeting waits for, however the request was cut and whatever the poll reported.
  pub handle_greeting_receive_connection_type-Ready :
      (ps : List PollAnswer) (s : Stream) → Ready (handle_greeting_receive_connection_type lib ps s)
  unfolding handle_greeting_receive_connection_type
  handle_greeting_receive_connection_type-Ready ps s =
      shake_loop-Ready s.now ps (record { stream = s; received = []; finished = false }) (λ e. cc)
