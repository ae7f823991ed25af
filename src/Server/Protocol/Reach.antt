-- ===== src/Server/Protocol/Reach.antt =====
-- The connections of the server: what they go through from their acceptance on.
use nettest.Common.{ℕ, ◌≡◌, inl, inr, refl, List}
use nettest.Net.{
  Outcome, ok, err, panic, would_block, timed_out, unexpected_eof, other, final, Stream, writable,
  ReadCall, WriteCall, Registration, Flush,
}
use nettest.Chunks.{Filler}
use nettest.Server.{ServerTestPhase, TestState, greeting_send_version}
use nettest.Server.Event.{Event, verdict, stays, handle_event, accepted, later}
use nettest.Server.Protocol.{◌⟶◌, Keeps, Wakes, still_awake}
use nettest.Server.Protocol.Events.{event-Keeps}

-- The states of a connection that the worker has accepted and not removed.
pub data IsReachable (random : Filler) : TestState → Type 0 where
  start :
      (token : ℕ) (stream : Stream)
      → stream.interest ≡ writable
      → IsReachable random (accepted token stream)
  pause :
      {s : TestState} (rs : List ReadCall) (ws : List WriteCall) (gs : List Registration)
      (fs : List Flush) (t : ℕ)
      → IsReachable random s
      → IsReachable random (later rs ws gs fs t s)
  event :
      {s : TestState} (e : Event)
      → IsReachable random s
      → verdict (handle_event random e s) ≡ stays
      → IsReachable random (final (handle_event random e s))

-- The diagram's paths.
pub data IsPath : ServerTestPhase → ServerTestPhase → Type 0 where
  here : {p : ServerTestPhase} → IsPath p p
  further : {p q r : ServerTestPhase} → IsPath p q → q ⟶ r → IsPath p r

abbrev Serves : TestState → Type 0
Serves s =
    IsPath greeting_send_version s.measurement_state × Wakes s.measurement_state s.stream.interest

final-Serves :
    (s : TestState) (o : Outcome TestState)
    → Serves s
    → verdict o ≡ stays
    → Keeps s.measurement_state s.stream.interest o
    → Serves (final o)
final-Serves s (ok n t) (p, w) v (inl edge, k) = (further p edge, k)
final-Serves s (ok n t) (p, w) v (inr same, k) = (rw same p, k)
final-Serves s (err would_block t) (p, w) v (same, kept) = (rw same p, still_awake w same kept)
final-Serves s (err timed_out t) h v k = cc
final-Serves s (err unexpected_eof t) h v k = cc
final-Serves s (err other t) h v k = cc
final-Serves s (panic t) h v k = cc

module _ (random : Filler) where
  serves : {s : TestState} → IsReachable random s → Serves s
  unfolding accepted
  serves (start token stream i) = (here, rw i refl)
  serves (pause rs ws gs fs t r) = serves r
  serves (event {s} e r v) =
      let h = serves r in final-Serves s (handle_event random e s) h v (event-Keeps random e s h.1)

  -- A connection that is not removed is in a phase that a path of the diagram leads to from the
  -- greeting, and its stream is registered for what the phase waits for, however its input, its
  -- output and its events were cut.
  pub reachable-Wakes :
      (s : TestState)
      → IsReachable random s
      → IsPath greeting_send_version s.measurement_state
        × Wakes s.measurement_state s.stream.interest
  reachable-Wakes s r = serves r
