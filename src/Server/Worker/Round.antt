-- ===== src/Server/Worker/Round.antt =====
-- The rest of a worker's loop (`run` and `process_all_connections` of src/mioserver/worker.rs).
use nettest.Common.{ℕ, ◌+◌, ◌-◌, List, [], ◌∷◌, ◌++◌, Option, none, some, ltb, if◌then◌else◌}
use nettest.Net.{
  Outcome, ok, err, panic, final, ErrorKind, Stream, both, reregister, ReadCall, WriteCall,
  Registration, Flush,
}
use nettest.Chunks.{Filler}
use nettest.Server.{TestState}
use nettest.Server.Event.{Event, Verdict, stays, removed, verdict, handle_event, accepted, later}
use nettest.Server.Handshake.{
  Upgrades, PollAnswer, Shaken, shaken, refused, handle_greeting_receive_connection_type,
}
use nettest.Server.Worker.{
  ConnectionType, tcp, tls, Shared, Slot, at_top, at_poll, crashed, ended, Worker, modify,
  decreased, Both, at_stage, remove, find_slot, insert, replace,
}

-- What the worker meets when it settles a connection: the TLS stream if its set-up does not panic, the
-- poll's answers in the handshake, and the time when the entry is made.
pub record Settling : Type 0 where
  pub new_rustls_server : Stream → Option Stream
  pub polls : List PollAnswer
  pub now : ℕ

abbrev pub stream_of : Settling → ConnectionType → Option Stream
stream_of x (tcp s) = some s
stream_of x (tls s) = x.new_rustls_server s

-- An event, its time, and what the operating system will answer to the handler.
pub record Arrival : Type 0 where
  pub token : ℕ
  pub event : Event
  pub now : ℕ
  pub reads : List ReadCall
  pub writes : List WriteCall
  pub registrations : List Registration
  pub flushes : List Flush

-- What the poll returns: events and the time behind their handling, or an error.
pub data Polled : Type 0 where
  woken : List Arrival → ℕ → Polled
  poll_error : ErrorKind → Polled

abbrev pub idle_limit : ℕ
idle_limit = 15000000000

-- `last_active.elapsed() > Duration::from_secs(15)`.
unfoldable pub timed_out : ℕ → List Slot → List ℕ
timed_out now [] = []
timed_out now (s ∷ ss) =
    let rest = timed_out now ss in
    if ltb idle_limit (now - s.last_active) then s.token ∷ rest else rest

-- The loop over `connections_to_remove`.
unfoldable pub remove_all : List ℕ → Worker → Shared → Both
remove_all [] w sh = record { worker = w; shared = sh }
remove_all (t ∷ ts) w sh = elim (modify w.id decreased sh.worker_connection_counts) [
  | none ↦ record {
    worker = record w { connections = remove t w.connections; stage = crashed };
    shared = sh;
  }
  | some ns ↦
      remove_all ts (record w { connections = remove t w.connections })
        (record sh { worker_connection_counts = ns })
]

module _ (random : Filler) (lib : Upgrades) where
  -- Behind the handshake: the entry in the table, or `continue`.
  abbrev pub settled : ℕ → ℕ → Shaken → Worker → Worker
  settled token now (shaken h) w = record w {
    connections =
        insert (record { token = token; last_active = now; state = accepted token h.stream })
          w.connections;
    stage = at_poll;
  }
  settled token now (refused e) w = at_stage at_top w
  settled token now Shaken.crashed w = at_stage crashed w

  abbrev pub registered_as : Settling → ℕ → Outcome Stream → Worker → Worker
  registered_as x token (ok n s) w =
      settled token x.now (handle_greeting_receive_connection_type lib x.polls s) w
  registered_as x token (err e s) w = at_stage at_top w
  registered_as x token (panic s) w = at_stage crashed w

  abbrev pub with_stream : Settling → Option Stream → Worker → Worker
  with_stream x none w = at_stage crashed w
  with_stream x (some s) w =
      registered_as x w.next_token (reregister both s) (record w { next_token = w.next_token + 1 })

  unfoldable pub settle : Settling → ConnectionType → Worker → Worker
  settle x c w = with_stream x (stream_of x c) w

module _ (random : Filler) where
  -- One event, for the entry that it finds.
  abbrev pub touched : Arrival → Slot → Outcome TestState → Slot
  touched a s o = record { token = s.token; last_active = a.now; state = final o }

  abbrev pub handled : Arrival → Slot → Outcome TestState
  handled a s =
      handle_event random a.event (later a.reads a.writes a.registrations a.flushes a.now s.state)

  -- Behind the handler: the entry is kept, with its token to be removed or not, or the thread panics.
  abbrev pub on_verdict :
      Arrival
      → Slot
      → List Slot
      → List ℕ
      → Verdict
      → (List Slot → List ℕ → Option (List Slot × List ℕ))
      → Option (List Slot × List ℕ)
  on_verdict a new ss out stays next = next (replace new ss) out
  on_verdict a new ss out removed next = next (replace new ss) (out ++ a.token ∷ [])
  on_verdict a new ss out Verdict.crashed next = none

  abbrev pub on_slot :
      Arrival
      → Option Slot
      → List Slot
      → List ℕ
      → (List Slot → List ℕ → Option (List Slot × List ℕ))
      → Option (List Slot × List ℕ)
  on_slot a none ss out next = next ss out
  on_slot a (some s) ss out next =
      on_verdict a (touched a s (handled a s)) ss out (verdict (handled a s)) next

  -- The entries and the tokens to remove, or a panic.
  unfoldable pub process_events : List Arrival → List Slot → List ℕ → Option (List Slot × List ℕ)
  process_events [] ss out = some (ss, out)
  process_events (a ∷ rest) ss out =
      on_slot a (find_slot a.token ss) ss out (λ ts us. process_events rest ts us)

  abbrev pub processed : ℕ → Worker → Shared → Option (List Slot × List ℕ) → Both
  processed now w sh none = record { worker = at_stage crashed w; shared = sh }
  processed now w sh (some (ss, out)) =
      remove_all (out ++ timed_out now ss) (record w { connections = ss; stage = at_top }) sh

  abbrev pub polled_by : Polled → Worker → Shared → Both
  polled_by (poll_error e) w sh = record { worker = at_stage (ended e) w; shared = sh }
  polled_by (woken es now) w sh = processed now w sh (process_events es w.connections [])

  -- `process_all_connections`, or the sleep of a worker without a connection.
  abbrev pub process_slots : List Slot → Polled → Worker → Shared → Both
  process_slots [] p w sh = record { worker = at_stage at_top w; shared = sh }
  process_slots (s ∷ ss) p w sh = polled_by p w sh

  unfoldable pub process : Polled → Worker → Shared → Both
  process p w sh = process_slots w.connections p w sh
