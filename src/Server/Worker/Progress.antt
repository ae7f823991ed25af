-- ===== src/Server/Worker/Progress.antt =====
-- A worker's way from a silent connection to the next one, and from a failed handshake back to the
-- queue (src/mioserver/worker.rs).
use mathlib.Core.Path.{subst}
use nettest.Common.{
  ==_iff, ℕ, ◌+◌, ◌≤◌, ◌<◌, List, [], ◌∷◌, ◌++◌, length, All, ◌≡◌, refl, ap, ◌∙◌, arith,
}
use nettest.Chunks.{Filler}
use nettest.Server.Handshake.{Upgrades}
use nettest.Server.Worker.{
  at_stage, ConnectionType, Shared, Slot, Worker, Both, take_connection, at_top, at_poll, holding,
  increased, decreased, remove,
}
use nettest.Server.Worker.Round.{
  woken, process, idle_limit, timed_out, remove_all, process_events, process_slots,
}
use nettest.Server.Worker.Slots.{modify-some}
use nettest.Server.Worker.Sound.{held}
use nettest.Server.Worker.System.{System, put, update, Reach, takes, processes}
use nettest.Server.Worker.Order.{Reach-Inv}

-- Nothing has come from a connection for more than 15 seconds.
abbrev pub IsSilent : ℕ → Slot → Type 0
IsSilent now s = s.last_active + idle_limit < now

update_same : (ws : ℕ → Worker) (i : ℕ) (w : Worker) → update ws i w i ≡ w
update_same ws i w = rw ((==_iff i i).1 refl) refl

module _ (random : Filler) where
  -- A worker that is rid of its connection.
  record IsFree (w : Worker) (sh : Shared) (b : Both) : Type 0 where
    table : b.worker.connections ≡ []
    stage : b.worker.stage ≡ at_top
    queue : b.shared.global_queue ≡ sh.global_queue
    numbered : b.worker.id ≡ w.id

  timed_out-IsSilent : (now : ℕ) (s : Slot) → IsSilent now s → timed_out now (s ∷ []) ≡ s.token ∷ []
  unfolding timed_out
  timed_out-IsSilent now s h = ground arith

  remove_own : (s : Slot) → remove s.token (s ∷ []) ≡ []
  unfolding remove
  remove_own s = ground arith

  remove_all_one :
      (t : ℕ) (w : Worker) (sh : Shared)
      → w.id < length sh.worker_connection_counts
      → remove t w.connections ≡ []
      → w.stage ≡ at_top
      → IsFree w sh (remove_all (t ∷ []) w sh)
  unfolding remove_all
  remove_all_one t w sh lt e p =
      let (ms, m, l) = modify-some w.id decreased sh.worker_connection_counts lt in
      rw (remove_all, m) (record { table = e; stage = p; queue = refl; numbered = refl })

  process_slots-IsFree :
      (now : ℕ) (w : Worker) (sh : Shared) (ss : List Slot)
      → w.connections ≡ ss
      → w.id < length sh.worker_connection_counts
      → length ss ≤ 1
      → All (IsSilent now) ss
      → IsFree w sh (process_slots random ss (woken [] now) w sh)
  unfolding process_events
  process_slots-IsFree now w sh [] e lt few h = record {
    table = e;
    stage = refl;
    queue = refl;
    numbered = refl;
  }
  process_slots-IsFree now w sh (s ∷ []) e lt few h =
      let late : timed_out now w.connections ≡ s.token ∷ [] =
        ap (timed_out now) e ∙ timed_out-IsSilent now s h.0 in
      let f =
        remove_all_one s.token (at_stage at_top w) sh lt (ap (remove s.token) e ∙ remove_own s)
          refl in
      rw late (record { table = f.table; stage = f.stage; queue = f.queue; numbered = f.numbered })
  process_slots-IsFree now w sh (s ∷ t ∷ ss) e lt few h = absurd (omega (arith, few))

  process-IsFree :
      (now : ℕ) (w : Worker) (sh : Shared)
      → w.id < length sh.worker_connection_counts
      → length w.connections ≤ 1
      → All (IsSilent now) w.connections
      → IsFree w sh (process random (woken [] now) w sh)
  unfolding process
  process-IsFree now w sh lt few h = process_slots-IsFree now w sh w.connections refl lt few h

  -- A worker with an empty table takes the first connection of the queue.
  record HasTaken (c : ConnectionType) (q : List ConnectionType) (b : Both) : Type 0 where
    holds : b.worker.stage ≡ holding c
    rest : b.shared.global_queue ≡ q

  take_connection-HasTaken :
      (w : Worker) (sh : Shared) (c : ConnectionType) (q : List ConnectionType)
      → w.connections ≡ []
      → w.id < length sh.worker_connection_counts
      → sh.global_queue ≡ c ∷ q
      → HasTaken c q (take_connection w sh)
  unfolding take_connection
  take_connection-HasTaken w sh c q e lt f =
      let (ms, m, l) = modify-some w.id increased sh.worker_connection_counts lt in
      rw (e, f, m) (record { holds = refl; rest = refl })

-- Worker `i` polls without an event, and then comes to the top of its loop.
abbrev pub after_poll : Filler → ℕ → ℕ → System → System
after_poll random i now s = put s i (process random (woken [] now) (s.workers i) s.shared)

abbrev pub after_take : ℕ → System → System
after_take i s = put s i (take_connection (s.workers i) s.shared)

module _ (random : Filler) (lib : Upgrades) (n : ℕ) where
  -- A worker whose connection has been silent for more than 15 seconds is rid of it after one poll, and
  -- takes the first connection of the queue at the top of its next round: whatever waits in the queue
  -- moves up, and the server comes to that state by two steps of that worker.
  pub silent_worker_takes :
      (s : System) (accepted taken q : List ConnectionType) (c : ConnectionType) (i now : ℕ)
      → Reach random lib n s accepted taken
      → i < n
      → (s.workers i).stage ≡ at_poll
      → All (IsSilent now) (s.workers i).connections
      → s.shared.global_queue ≡ c ∷ q
      → Reach random lib n (after_take i (after_poll random i now s)) accepted (taken ++ c ∷ [])
        × ((after_take i (after_poll random i now s)).shared.global_queue ≡ q)
        × (((after_take i (after_poll random i now s)).workers i).stage ≡ holding c)
  silent_worker_takes s accepted taken q c i now r lt p h e =
      let inv = Reach-Inv random lib n r in
      let mid = after_poll random i now s in
      let polled : Reach random lib n mid accepted taken = processes i (woken [] now) lt p r in
      let after = Reach-Inv random lib n polled in
      let numbered = (inv.sound i).numbered in
      let room : (s.workers i).id < length s.shared.worker_connection_counts =
        omega (arith, numbered, inv.counts) in
      let free = process-IsFree random now (s.workers i) s.shared room (inv.sound i).few h in
      let same : mid.workers i ≡ (process random (woken [] now) (s.workers i) s.shared).worker =
        update_same s.workers i (process random (woken [] now) (s.workers i) s.shared).worker in
      let room_after : (mid.workers i).id < length mid.shared.worker_connection_counts =
        omega (arith, (after.sound i).numbered, after.counts) in
      let gets =
        take_connection-HasTaken random (mid.workers i) mid.shared c q
          (ap (λ (w : Worker). w.connections) same ∙ free.table) room_after (free.queue ∙ e) in
      let two = takes i lt (ap (λ (w : Worker). w.stage) same ∙ free.stage) polled in
      (
        subst (λ l. Reach random lib n (after_take i mid) accepted (taken ++ l))
            (ap held gets.holds) two,
        gets.rest,
        ap (λ (w : Worker). w.stage)
              (update_same mid.workers i (take_connection (mid.workers i) mid.shared).worker)
            ∙ gets.holds,
      )
