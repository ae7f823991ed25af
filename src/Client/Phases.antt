-- ===== src/Client/Phases.antt =====
-- The tests of the client and the loop that drives each of them (src/client/state.rs).
--
-- A round of the loop is one `poll`: it fails, or it returns with the events of the stream. With an
-- event comes the script of the calls that the handler makes. A poll without events returns behind
-- its own time-out, which is the test's limit. `lag` is the time between
-- `Instant::now()` and the reading of its `elapsed()`, which the source takes for the present.
pub mod Timeout
use nettest.Common.{
  ℕ, ◌+◌, ◌-◌, ◌*◌, ◌%◌, ◌^◌, Bool, true, false, ◌==◌, ltb, if◌then◌else◌, none, some, List, [],
  ◌∷◌,
}
use mathlib.Core.Logic.{ite}
use nettest.Net.{
  ErrorKind, would_block, Outcome, ok, err, panic, ReadCall, WriteCall, writable, both,
}
use nettest.Chunks.{Filler}
use nettest.Client.{
  TestPhase, MeasurementState, reregister_then, greeting_completed, get_chunks_send_chunks_command,
  get_chunks_completed, ping_send_ping, ping_completed, get_time_send_command, get_time_completed,
  perf_send_command, perf_completed,
}
use nettest.Client.Dispatch.{handle_client_readable_data, handle_client_writable_data}

pub record Event : Type 0 where
  pub is_readable : Bool
  pub is_writable : Bool
  pub reads : List ReadCall
  pub writes : List WriteCall

pub data Round : Type 0 where
  poll_fails : ErrorKind → Round
  polled : ℕ → ℕ → List Event → Round

-- How a test ends, or that it still waits for events.
pub data Progress : Type 0 where
  returned : MeasurementState → Progress
  failed_with : ErrorKind → MeasurementState → Progress
  panicked : MeasurementState → Progress
  waiting : MeasurementState → Progress

pub TestPhase-discrete : Discrete TestPhase
TestPhase-discrete = hlevel

-- `now - time > test_duration_ns` on u128 in a release build.
abbrev pub is_exceeded : ℕ → ℕ → ℕ → Bool
is_exceeded lag time duration = ltb duration ((lag + 2 ^ 128 - time) % 2 ^ 128)

-- What an event's result means for the test, and whether the events behind it are handled.
pub data Handled : Type 0 where
  goes_on : MeasurementState → Handled
  breaks : MeasurementState → Handled
  panics : MeasurementState → Handled

unfoldable pub take_result : Outcome MeasurementState → Handled
take_result (ok n s) = goes_on (if n == 0 then record s { failed = true } else s)
take_result (err would_block s) = goes_on s
take_result (err e s) = breaks (record s { failed = true })
take_result (panic s) = panics s

abbrev pub scripted : Event → MeasurementState → MeasurementState
scripted e s = record s { stream = record s.stream { reads = e.reads; writes = e.writes } }

abbrev pub one_second_ns : ℕ
one_second_ns = 1000000000

-- When a poll without events returns.
abbrev pub returns_at : ℕ → ℕ → ℕ
returns_at at limit = if ltb at limit then limit else at

module _ (random : Filler) where
  unfoldable pub handle_event : Event → MeasurementState → Handled
  handle_event e s0 =
      let s = scripted e s0 in
      if e.is_readable
      then take_result (handle_client_readable_data s)
      else if e.is_writable
      then take_result (handle_client_writable_data random s)
      else take_result (ok 0 s)

  unfoldable pub handle_events : List Event → MeasurementState → Handled
  handle_events [] s = goes_on s
  handle_events (e ∷ es) s = elim (handle_event e s) [
    | goes_on t ↦ handle_events es t
    | breaks t ↦ breaks t
    | panics t ↦ panics t
  ]

  -- `while self.measurement_state.phase != phase { … }`.
  unfoldable pub phase_loop : TestPhase → ℕ → List Round → MeasurementState → Progress
  unfolding handle_events TestPhase-discrete
  phase_loop target duration [] s = ite (TestPhase-discrete s.phase target) (returned s) (waiting s)
  phase_loop target duration (r ∷ rs) s = elim (TestPhase-discrete s.phase target) [
    | yes _ ↦ returned s
    | no _ ↦ elim r [
      | poll_fails k ↦ failed_with k s
      | polled at lag [] ↦ elim s.phase_start_time [
        | none ↦ panicked s
        | some since ↦
            let back = returns_at at (s.stream.now + duration) in
            let t = record s { stream = record s.stream { now = back } } in
            elim (is_exceeded lag (back - since) duration) [
              | true ↦ returned (record t { failed = true })
              | false ↦ phase_loop target duration rs t
            ]
      ]
      | polled at lag (e ∷ es) ↦
          elim (handle_events (e ∷ es) (record s { stream = record s.stream { now = at } })) [
            | goes_on t ↦ phase_loop target duration rs t
            | breaks t ↦ phase_loop target duration rs t
            | panics t ↦ panicked t
          ]
    ]
  ]

  -- A test that has failed before is passed over.
  unfoldable pub process_phase : TestPhase → ℕ → List Round → MeasurementState → Progress
  process_phase target duration rs s =
      if s.failed
      then returned s
      else phase_loop target duration rs (record s { phase_start_time = some s.stream.now })

  unfoldable pub then_process : TestPhase → ℕ → List Round → Outcome MeasurementState → Progress
  unfolding process_phase
  then_process target duration rs (ok n s) = process_phase target duration rs s
  then_process target duration rs (err e s) = failed_with e s
  then_process target duration rs (panic s) = panicked s

  -- Sets the first phase of a test, registers the stream and drives the test to its last phase.
  unfoldable pub process_greeting : List Round → MeasurementState → Progress
  process_greeting rs s =
      then_process greeting_completed (one_second_ns * 50) rs (reregister_then both 0 (λ t. t) s)

  unfoldable pub run_perf_test : List Round → MeasurementState → Progress
  run_perf_test rs s =
      then_process perf_completed (one_second_ns * 12) rs
        (reregister_then writable 0 (λ t. t) (record s { phase = perf_send_command }))

  unfoldable pub run_ping : List Round → MeasurementState → Progress
  run_ping rs s =
      then_process ping_completed (one_second_ns * 3) rs
        (reregister_then writable 0 (λ t. t) (record s { phase = ping_send_ping }))

  unfoldable pub run_get_chunks : List Round → MeasurementState → Progress
  run_get_chunks rs s =
      then_process get_chunks_completed (one_second_ns * 3) rs
        (reregister_then writable 0 (λ t. t) (record s { phase = get_chunks_send_chunks_command }))

  unfoldable pub run_get_time : List Round → MeasurementState → Progress
  run_get_time rs s =
      then_process get_time_completed (one_second_ns * 12) rs
        (reregister_then writable 0 (λ t. t) (record s { phase = get_time_send_command }))
