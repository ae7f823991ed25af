-- ===== src/Server/Worker.antt =====
-- The workers of the server and the queue that they share (src/mioserver/worker.rs, and
-- `handle_connection` of src/mioserver/server.rs).
--
-- A worker takes a connection off the queue only while its table is empty. Its loop is cut where it
-- takes or gives back a lock or waits: at the top, with the connection that it has taken, and before
-- the poll. The clock counts nanoseconds.
pub mod Round
pub mod Slots
pub mod Sound
pub mod Processing
pub mod System
pub mod Order
pub mod Progress
use nettest.Common.{
  ℕ, zero, suc, ◌+◌, ◌-◌, ◌%◌, ◌^◌, Bool, true, false, not, List, [], ◌∷◌, ◌++◌, ◌==◌, ltb,
  if◌then◌else◌, Option, none, some,
}
use nettest.Net.{
  Outcome, ok, err, panic, final, ErrorKind, Stream, Interest, both, Registration, reregister,
}
use nettest.Chunks.{Filler}
use nettest.Server.{TestState}
use nettest.Server.Event.{Event, Verdict, stays, removed, verdict, handle_event, accepted}
use nettest.Server.Handshake.{
  Upgrades, PollAnswer, Shaken, shaken, refused, handle_greeting_receive_connection_type,
}

-- `ConnectionType`: a stream with a flag.
pub data ConnectionType : Type 0 where
  tcp tls : Stream → ConnectionType

-- What the threads share: the queue, and the number of connections of each worker.
pub record Shared : Type 0 where
  pub global_queue : List ConnectionType
  pub worker_connection_counts : List ℕ

-- An entry of a worker's table; `last_active` stands in `TestState` in the source.
pub record Slot : Type 0 where
  pub token : ℕ
  pub last_active : ℕ
  pub state : TestState

-- Where a worker stands in its loop; `ended` is a return of `run`.
pub data Stage : Type 0 where
  at_top at_poll crashed : Stage
  holding : ConnectionType → Stage
  ended : ErrorKind → Stage

pub record Worker : Type 0 where
  pub id : ℕ
  pub connections : List Slot
  pub next_token : ℕ
  pub stage : Stage

-- `Worker::new`.
abbrev pub new_worker : ℕ → Worker
new_worker id = record { id = id; connections = []; next_token = 1; stage = at_top }

-- The server's `handle_connection`.
abbrev pub handle_connection : Bool → Stream → Shared → Shared
handle_connection is_tls s sh = record sh {
  global_queue = sh.global_queue ++ (if is_tls then tls s else tcp s) ∷ [];
}

-- `counts[id] += 1` and `counts[id] -= 1` in a release build; out of range they panic.
unfoldable pub modify : ℕ → (ℕ → ℕ) → List ℕ → Option (List ℕ)
modify i f [] = none
modify zero f (n ∷ ns) = some (f n ∷ ns)
modify (suc i) f (n ∷ ns) = elim (modify i f ns) [ none ↦ none | some ms ↦ some (n ∷ ms) ]

abbrev pub increased : ℕ → ℕ
increased n = (n + 1) % 2 ^ 64

abbrev pub decreased : ℕ → ℕ
decreased n = (n + 2 ^ 64 - 1) % 2 ^ 64

-- A worker and what it shares with the others.
pub record Both : Type 0 where
  pub worker : Worker
  pub shared : Shared

abbrev pub at_stage : Stage → Worker → Worker
at_stage p w = record w { stage = p }

-- At the top of the loop: with an empty table, the first of the queue is taken and counted.
abbrev pub counted : ConnectionType → List ConnectionType → Worker → Shared → Option (List ℕ) → Both
counted c q w sh none = record {
  worker = at_stage crashed w;
  shared = record sh { global_queue = q };
}
counted c q w sh (some ns) = record {
  worker = at_stage (holding c) w;
  shared = record { global_queue = q; worker_connection_counts = ns };
}

abbrev pub take_from : List ConnectionType → Worker → Shared → Both
take_from [] w sh = record { worker = at_stage at_poll w; shared = sh }
take_from (c ∷ q) w sh = counted c q w sh (modify w.id increased sh.worker_connection_counts)

abbrev pub take_into : List Slot → Worker → Shared → Both
take_into [] w sh = take_from sh.global_queue w sh
take_into (s ∷ ss) w sh = record { worker = at_stage at_poll w; shared = sh }

unfoldable pub take_connection : Worker → Shared → Both
take_connection w sh = take_into w.connections w sh

-- The table as a `HashMap`, by token.
unfoldable pub remove : ℕ → List Slot → List Slot
remove t [] = []
remove t (s ∷ ss) = let rest = remove t ss in if s.token == t then rest else s ∷ rest

unfoldable pub find_slot : ℕ → List Slot → Option Slot
find_slot t [] = none
find_slot t (s ∷ ss) = let rest = find_slot t ss in if s.token == t then some s else rest

unfoldable pub insert : Slot → List Slot → List Slot
insert s ss = s ∷ remove s.token ss

-- `get_mut` of a slot that was found, and the change that is made to it.
unfoldable pub replace : Slot → List Slot → List Slot
replace new [] = []
replace new (s ∷ ss) = let rest = replace new ss in (if s.token == new.token then new else s) ∷ rest
