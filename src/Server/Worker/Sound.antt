-- ===== src/Server/Worker/Sound.antt =====
-- What each part of a worker's loop keeps (src/mioserver/worker.rs).
use nettest.Common.{
  ℕ, ◌+◌, ◌≤◌, ◌<◌, List, [], ◌∷◌, ◌++◌, Option, none, some, length, All, ◌≡◌, refl, sym, arith,
}
use nettest.Chunks.{Filler}
use nettest.Net.{Outcome, ok, err, panic, Stream, both, reregister}
use nettest.Server.Handshake.{
  Upgrades, Shaken, shaken, refused, handle_greeting_receive_connection_type,
}
use nettest.Server.Handshake.Registered.{Ready, handle_greeting_receive_connection_type-Ready}
use nettest.Server.Protocol.Reach.{IsReachable, start}
use nettest.Server.Worker.{
  ConnectionType, Shared, Slot, Stage, at_top, crashed, holding, Worker, increased, Both, at_stage,
  take_from, take_into, take_connection, remove, insert,
}
use nettest.Server.Worker.Round.{Settling, stream_of, settled, registered_as, with_stream, settle}
use nettest.Server.Worker.Slots.{modify-some}

-- The connection that a worker has taken and not settled.
abbrev pub held : Stage → List ConnectionType
held (holding c) = c ∷ []
held _ = []

module _ (random : Filler) where
  abbrev pub Serves : Slot → Type 0
  Serves s = IsReachable random s.state

  -- A worker has at most one connection, none while it settles another, and each one is in a state that
  -- the protocol leads to.
  pub record IsSound (i : ℕ) (w : Worker) : Type 0 where
    pub numbered : w.id ≡ i
    pub few : length w.connections ≤ 1
    pub idle : (c : ConnectionType) → w.stage ≡ holding c → w.connections ≡ []
    pub served : All Serves w.connections

  -- A part that takes from the queue, or does not.
  pub record TakesFrom (i : ℕ) (sh : Shared) (b : Both) : Type 0 where
    pub sound : IsSound i b.worker
    pub counts : length b.shared.worker_connection_counts ≡ length sh.worker_connection_counts
    pub taken : held b.worker.stage ++ b.shared.global_queue ≡ sh.global_queue

  take_from-TakesFrom :
      (i : ℕ) (w : Worker) (sh : Shared) (q : List ConnectionType)
      → i < length sh.worker_connection_counts
      → IsSound i w
      → w.connections ≡ []
      → sh.global_queue ≡ q
      → TakesFrom i sh (take_from q w sh)
  take_from-TakesFrom i w sh [] lt h e f = record {
    sound = record { numbered = h.numbered; few = h.few; idle = λ c g. e; served = h.served };
    counts = refl;
    taken = refl;
  }
  take_from-TakesFrom i w sh (c ∷ q) lt h e f =
      let (ms, m, l) = modify-some w.id increased sh.worker_connection_counts (rw h.numbered lt) in
      rw m (record {
        sound = record { numbered = h.numbered; few = h.few; idle = λ d g. e; served = h.served };
        counts = l;
        taken = sym f;
      })

  take_into-TakesFrom :
      (i : ℕ) (w : Worker) (sh : Shared) (ss : List Slot)
      → i < length sh.worker_connection_counts
      → IsSound i w
      → w.connections ≡ ss
      → TakesFrom i sh (take_into ss w sh)
  take_into-TakesFrom i w sh [] lt h e = take_from-TakesFrom i w sh sh.global_queue lt h e refl
  take_into-TakesFrom i w sh (s ∷ ss) lt h e = record {
    sound = record { numbered = h.numbered; few = h.few; idle = λ c g. cc; served = h.served };
    counts = refl;
    taken = refl;
  }

  pub take_connection-TakesFrom :
      (i : ℕ) (w : Worker) (sh : Shared)
      → i < length sh.worker_connection_counts
      → IsSound i w
      → TakesFrom i sh (take_connection w sh)
  unfolding take_connection
  take_connection-TakesFrom i w sh lt h = take_into-TakesFrom i w sh w.connections lt h refl

  moved :
      (i : ℕ) (w : Worker) (p : Stage)
      → ((c : ConnectionType) → p ≡ holding c → w.connections ≡ [])
      → IsSound i w
      → IsSound i (at_stage p w)
  moved i w p f h = record { numbered = h.numbered; few = h.few; idle = f; served = h.served }

  -- Settling gives the table its only entry, or leaves it empty.
  module _ (lib : Upgrades) where
    settled-IsSound :
        (i token now : ℕ) (o : Shaken) (w : Worker)
        → IsSound i w
        → w.connections ≡ []
        → Ready lib o
        → IsSound i (settled random lib token now o w)
    unfolding insert remove
    settled-IsSound i token now (shaken g) w h e r = record {
      numbered = h.numbered;
      few = rw e (omega arith);
      idle = λ c f. cc;
      served = rw e (start token g.stream r, tt);
    }
    settled-IsSound i token now (refused k) w h e r = moved i w at_top (λ c f. e) h
    settled-IsSound i token now Shaken.crashed w h e r = moved i w crashed (λ c f. e) h

    registered_as-IsSound :
        (i : ℕ) (x : Settling) (token : ℕ) (o : Outcome Stream) (w : Worker)
        → IsSound i w
        → w.connections ≡ []
        → IsSound i (registered_as random lib x token o w)
    registered_as-IsSound i x token (ok n s) w h e =
        settled-IsSound i token x.now (handle_greeting_receive_connection_type lib x.polls s) w h e
          (handle_greeting_receive_connection_type-Ready lib x.polls s)
    registered_as-IsSound i x token (err k s) w h e = moved i w at_top (λ c f. e) h
    registered_as-IsSound i x token (panic s) w h e = moved i w crashed (λ c f. e) h

    with_stream-IsSound :
        (i : ℕ) (x : Settling) (o : Option Stream) (w : Worker)
        → IsSound i w
        → w.connections ≡ []
        → IsSound i (with_stream random lib x o w)
    with_stream-IsSound i x none w h e = moved i w crashed (λ c f. e) h
    with_stream-IsSound i x (some s) w h e =
        registered_as-IsSound i x w.next_token (reregister both s)
          (record w { next_token = w.next_token + 1 })
          (record { numbered = h.numbered; few = h.few; idle = λ c f. e; served = h.served }) e

    pub settle-IsSound :
        (i : ℕ) (x : Settling) (c : ConnectionType) (w : Worker)
        → IsSound i w
        → w.stage ≡ holding c
        → IsSound i (settle random lib x c w)
    unfolding settle
    settle-IsSound i x c w h e = with_stream-IsSound i x (stream_of x c) w h (h.idle c e)
