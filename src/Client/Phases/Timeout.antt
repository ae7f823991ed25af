-- ===== src/Client/Phases/Timeout.antt =====
-- The client's time limit for a test (`process_phase` in src/client/state.rs).
use nettest.Common.{ℕ, ◌-◌, ◌^◌, ◌+◌, ◌≤◌, ◌<◌, ◌≡◌, ◌≢◌, true, some, List, [], ◌∷◌, arith}
use nettest.Chunks.{Filler}
use nettest.Client.{TestPhase, MeasurementState}
use nettest.Client.Phases.{Round, polled, returned, phase_loop, is_exceeded, returns_at}

is_exceeded_lem :
    (lag time duration : ℕ)
    → lag < time
    → time ≤ 2 ^ 127
    → duration < 2 ^ 127
    → is_exceeded lag time duration ≡ true
is_exceeded_lem lag time duration h k l = ground arith

-- A poll that waits in vain, for the test's limit since the last event or longer, ends the test as
-- failed, if less than the limit passes between the two clock readings of the comparison.
pub idle_poll-fails :
    (random : Filler) (target : TestPhase) (duration at lag since : ℕ) (rs : List Round)
    (s : MeasurementState)
    → s.phase ≢ target
    → s.phase_start_time ≡ some since
    → since ≤ s.stream.now
    → lag < duration
    → s.stream.now + duration < 2 ^ 127
    → at < 2 ^ 127
    → phase_loop random target duration (polled at lag [] ∷ rs) s
      ≡ returned (record s {
        stream = record s.stream { now = returns_at at (s.stream.now + duration) };
        failed = true;
      })
unfolding phase_loop
idle_poll-fails random target duration at lag since rs s h e f k l m =
    let back = returns_at at (s.stream.now + duration) in
    let long : duration ≤ back - since = ground arith in
    let short : back - since ≤ 2 ^ 127 = ground arith in
    ground (
      arith,
      is_exceeded_lem lag (back - since) duration (omega (arith, long, k)) short (omega (arith, l)),
    )
