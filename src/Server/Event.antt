-- ===== src/Server/Event.antt =====
-- What a worker does with one event of one connection (the loop over the events in
-- src/mioserver/worker.rs), and the state of a connection that was just accepted.
use nettest.Common.{List, ℕ, Bool, ◌==◌, if◌then◌else◌, none, [], replicate}
use nettest.Net.{
  Outcome, ok, err, panic, would_block, Stream, ReadCall, WriteCall, Registration, Flush,
}
use nettest.Server.{TestState, greeting_send_version, min_chunk_size}
use nettest.Server.Dispatch.{handle_client_readable_data, handle_client_writable_data}
use nettest.Chunks.{Filler}

-- `mio::event::Event`: the two tests that the worker makes.
pub record Event : Type 0 where
  pub is_readable : Bool
  pub is_writable : Bool

-- Whether the connection stays in the worker's table.
pub data Verdict : Type 0 where
  stays removed crashed : Verdict

abbrev pub verdict : Outcome TestState → Verdict
verdict (ok n s) = if n == 0 then removed else stays
verdict (err would_block s) = stays
verdict (err e s) = removed
verdict (panic s) = crashed

module _ (random : Filler) where
  -- An event that is neither readable nor writable leaves `Ok(0)`.
  unfoldable pub handle_event : Event → TestState → Outcome TestState
  handle_event e s =
      if e.is_readable
      then handle_client_readable_data s
      else if e.is_writable
      then handle_client_writable_data random s
      else ok 0 s

-- The state of a connection whose stream has been upgraded (`TestState { … }` in `run`).
unfoldable pub accepted : ℕ → Stream → TestState
accepted token stream = record {
  token = token;
  stream = stream;
  measurement_state = greeting_send_version;
  read_buffer = replicate 8192 0;
  write_buffer = replicate 8192 0;
  read_pos = 0;
  total_bytes = 0;
  write_pos = 0;
  num_chunks = 0;
  chunk_size = 0;
  processed_chunks = 0;
  clock = none;
  time_ns = none;
  duration = 0;
  chunk_buffer = replicate min_chunk_size 0;
  chunk = none;
  terminal_chunk = none;
  bytes_received = [];
}

-- The time that passes between two events, and what the operating system will answer.
abbrev pub later :
    List ReadCall → List WriteCall → List Registration → List Flush → ℕ → TestState → TestState
later rs ws gs fs t s = record s {
  stream = record s.stream { reads = rs; writes = ws; registrations = gs; flushes = fs; now = t };
}
