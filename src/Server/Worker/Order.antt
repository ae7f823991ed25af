-- ===== src/Server/Worker/Order.antt =====
-- What holds in every state that the server comes to (src/mioserver/server.rs,
-- src/mioserver/worker.rs).
use nettest.Common.{
  ℕ, ◌≤◌, ◌==◌, List, [], ◌∷◌, ◌++◌, length, length-replicate, All, ◌≡◌, refl, sym, ap, ◌∙◌, arith,
  if_cases, ==_iff, append_assoc,
}
use nettest.Chunks.{Filler}
use nettest.Server.{greeting_send_version}
use nettest.Server.Protocol.{Wakes}
use nettest.Server.Protocol.Reach.{IsPath, reachable-Wakes}
use nettest.Server.Handshake.{Upgrades}
use nettest.Server.Worker.{ConnectionType, Worker, Slot}
use nettest.Server.Worker.Sound.{Serves, IsSound, take_connection-TakesFrom, settle-IsSound}
use nettest.Server.Worker.Processing.{process-Leaves}
use nettest.Server.Worker.System.{
  connection_of, System, update, Reach, begin, accepts, takes, settles, processes,
}

module _ (random : Filler) (lib : Upgrades) (n : ℕ) where
  -- Every worker is sound, the counts are as many as the workers, and no connection is lost.
  pub record Inv (s : System) (accepted taken : List ConnectionType) : Type 0 where
    pub sound : (i : ℕ) → IsSound random i (s.workers i)
    pub counts : length s.shared.worker_connection_counts ≡ n
    pub fifo : taken ++ s.shared.global_queue ≡ accepted

  update-IsSound :
      (ws : ℕ → Worker) (i : ℕ) (w : Worker)
      → ((j : ℕ) → IsSound random j (ws j))
      → IsSound random i w
      → (j : ℕ) → IsSound random j (update ws i w j)
  update-IsSound ws i w h k j =
      if_cases (IsSound random j) (j == i) (λ e. let same : j ≡ i = (==_iff j i).0 e in rw same k)
        (λ e. h j)

  pub Reach-Inv :
      {s : System} {accepted taken : List ConnectionType}
      → Reach random lib n s accepted taken
      → Inv s accepted taken
  Reach-Inv begin = record {
    sound = λ i. record { numbered = refl; few = omega arith; idle = λ c e. refl; served = tt };
    counts = length-replicate n 0;
    fifo = refl;
  }
  Reach-Inv (accepts {s} {accepted} {taken} is_tls stream r) =
      let inv = Reach-Inv r in
      record {
        sound = inv.sound;
        counts = inv.counts;
        fifo =
            sym (append_assoc taken s.shared.global_queue (connection_of is_tls stream ∷ []))
            ∙ ap (λ q. q ++ connection_of is_tls stream ∷ []) inv.fifo;
      }
  Reach-Inv (takes {s} {accepted} {taken} i lt e r) =
      let inv = Reach-Inv r in
      let t =
        take_connection-TakesFrom random i (s.workers i) s.shared (rw inv.counts lt)
          (inv.sound i) in
      record {
        sound = update-IsSound s.workers i _ inv.sound t.sound;
        counts = t.counts ∙ inv.counts;
        fifo = append_assoc taken _ _ ∙ (ap (λ q. taken ++ q) t.taken ∙ inv.fifo);
      }
  Reach-Inv (settles {s} i x c lt e r) =
      let inv = Reach-Inv r in
      record {
        sound =
            update-IsSound s.workers i _ inv.sound
              (settle-IsSound random lib i x c (s.workers i) (inv.sound i) e);
        counts = inv.counts;
        fifo = inv.fifo;
      }
  Reach-Inv (processes {s} {accepted} {taken} i p lt e r) =
      let inv = Reach-Inv r in
      let t = process-Leaves random i (s.workers i) s.shared (rw inv.counts lt) (inv.sound i) p in
      record {
        sound = update-IsSound s.workers i _ inv.sound t.sound;
        counts = t.counts ∙ inv.counts;
        fifo = ap (λ q. taken ++ q) t.queue ∙ inv.fifo;
      }

  abbrev pub InProtocol : Slot → Type 0
  InProtocol t =
      IsPath greeting_send_version t.state.measurement_state
      × Wakes t.state.measurement_state t.state.stream.interest

  served-InProtocol : (ss : List Slot) → All (Serves random) ss → All InProtocol ss
  served-InProtocol [] h = tt
  served-InProtocol (t ∷ ss) h = (reachable-Wakes random t.state h.0, served-InProtocol ss h.1)

  -- Whatever connections arrive and however the workers are interleaved, the connections that were taken
  -- and then those in the queue are those that were accepted, in the order of their acceptance: none is
  -- lost, doubled or overtaken.
  pub accepted_in_order :
      (s : System) (accepted taken : List ConnectionType)
      → Reach random lib n s accepted taken
      → taken ++ s.shared.global_queue ≡ accepted
  accepted_in_order s accepted taken r = (Reach-Inv r).fifo

  -- A worker never has more than one connection, and each connection in its table is in a phase that the
  -- protocol leads to, registered for what that phase waits for.
  pub worker_serves :
      (s : System) (accepted taken : List ConnectionType)
      → Reach random lib n s accepted taken
      → (i : ℕ) → (length (s.workers i).connections ≤ 1) × All InProtocol (s.workers i).connections
  worker_serves s accepted taken r i =
      let h = (Reach-Inv r).sound i in (h.few, served-InProtocol (s.workers i).connections h.served)
