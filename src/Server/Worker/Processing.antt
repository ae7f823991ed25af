-- ===== src/Server/Worker/Processing.antt =====
-- What the handling of a worker's events keeps (`process_all_connections` of
-- src/mioserver/worker.rs).
use nettest.Common.{
  ℕ, ◌≤◌, ◌<◌, true, List, [], ◌∷◌, ◌++◌, Option, none, some, length, All, ◌≡◌, refl, sym, ap, ◌∙◌,
  arith, ◌⊎◌, inl, inr,
}
use nettest.Chunks.{Filler}
use nettest.Server.Event.{Verdict, stays, removed, verdict, later}
use nettest.Server.Protocol.Reach.{pause, event}
use nettest.Server.Worker.{
  Shared, Slot, Stage, at_top, crashed, ended, Worker, decreased, Both, at_stage, remove, find_slot,
  replace,
}
use nettest.Server.Worker.Round.{
  Arrival, Polled, woken, poll_error, timed_out, remove_all, touched, handled, on_verdict, on_slot,
  process_events, processed, process_slots, process,
}
use nettest.Server.Worker.Slots.{
  listed, listed_last, modify-some, length-replace, length-remove, replace-All, Found,
  find_slot-Found, remove-All, unlisted-All, grown-All, listed-All,
}
use nettest.Server.Worker.Sound.{held, Serves, IsSound}

module _ (random : Filler) where
  -- An entry that serves, or that is to be removed.
  abbrev Pending : List ℕ → Slot → Type 0
  Pending out s = Serves random s ⊎ (listed s.token out ≡ true)

  -- A part that leaves the queue alone and takes nothing.
  pub record Leaves (i : ℕ) (sh : Shared) (b : Both) : Type 0 where
    pub sound : IsSound random i b.worker
    pub counts : length b.shared.worker_connection_counts ≡ length sh.worker_connection_counts
    pub queue : b.shared.global_queue ≡ sh.global_queue
    pub empty_handed : held b.worker.stage ≡ []

  remove_all-Leaves :
      (i : ℕ) (ts : List ℕ) (w : Worker) (sh : Shared)
      → i < length sh.worker_connection_counts
      → w.id ≡ i
      → w.stage ≡ at_top
      → length w.connections ≤ 1
      → All (Pending ts) w.connections
      → Leaves i sh (remove_all ts w sh)
  unfolding remove_all
  remove_all-Leaves i [] w sh lt n p few k = record {
    sound = record {
      numbered = n;
      few = few;
      idle = λ c e. cc;
      served = unlisted-All (Serves random) w.connections k;
    };
    counts = refl;
    queue = refl;
    empty_handed = rw p refl;
  }
  remove_all-Leaves i (t ∷ ts) w sh lt n p few k =
      let (ms, m, l) = modify-some w.id decreased sh.worker_connection_counts (rw n lt) in
      let rest =
        remove_all-Leaves i ts (record w { connections = remove t w.connections })
          (record sh { worker_connection_counts = ms }) (omega (arith, l)) n p
          (omega (arith, few, length-remove t w.connections))
          (remove-All (Serves random) t ts w.connections k) in
      rw (remove_all, m)
        (record {
          sound = rest.sound;
          counts = rest.counts ∙ l;
          queue = rest.queue;
          empty_handed = rest.empty_handed;
        })

  -- What the loop over the events leaves.
  abbrev Processed : Option (List Slot × List ℕ) → Type 0
  Processed none = Unit
  Processed (some (ss, out)) = (length ss ≤ 1) × All (Pending out) ss

  touched-Pending :
      (a : Arrival) (s : Slot) (out : List ℕ)
      → verdict (handled random a s) ≡ stays
      → Pending out s
      → Pending out (touched random a s (handled random a s))
  touched-Pending a s out v (inl r) =
      inl (event a.event (pause a.reads a.writes a.registrations a.flushes a.now r) v)
  touched-Pending a s out v (inr l) = inr l

  on_verdict-Processed :
      (a : Arrival) (s : Slot) (ss : List Slot) (out : List ℕ) (v : Verdict)
      (next : List Slot → List ℕ → Option (List Slot × List ℕ))
      → verdict (handled random a s) ≡ v
      → s.token ≡ a.token
      → Pending out s
      → length ss ≤ 1
      → All (Pending out) ss
      → ((ts : List Slot) (us : List ℕ)
          → length ts ≤ 1
          → All (Pending us) ts
          → Processed (next ts us))
      → Processed (on_verdict random a (touched random a s (handled random a s)) ss out v next)
  on_verdict-Processed a s ss out stays next e t p few k later =
      let new = touched random a s (handled random a s) in
      later (replace new ss) out (rw (length-replace new ss) few)
        (replace-All (Pending out) new ss (touched-Pending a s out e p) k)
  on_verdict-Processed a s ss out removed next e t p few k later =
      let new = touched random a s (handled random a s) in
      let more = out ++ a.token ∷ [] in
      later (replace new ss) more (rw (length-replace new ss) few) (
        replace-All (Pending more) new ss (inr (rw t (listed_last a.token out)))
          (grown-All (Serves random) out (a.token ∷ []) ss k))
  on_verdict-Processed a s ss out Verdict.crashed next e t p few k later = tt

  on_slot-Processed :
      (a : Arrival) (o : Option Slot) (ss : List Slot) (out : List ℕ)
      (next : List Slot → List ℕ → Option (List Slot × List ℕ))
      → Found (Pending out) a.token o
      → length ss ≤ 1
      → All (Pending out) ss
      → ((ts : List Slot) (us : List ℕ)
          → length ts ≤ 1
          → All (Pending us) ts
          → Processed (next ts us))
      → Processed (on_slot random a o ss out next)
  on_slot-Processed a none ss out next h few k later = later ss out few k
  on_slot-Processed a (some s) ss out next (p, t) few k later =
      on_verdict-Processed a s ss out (verdict (handled random a s)) next refl t p few k later

  process_events-Processed :
      (es : List Arrival) (ss : List Slot) (out : List ℕ)
      → length ss ≤ 1
      → All (Pending out) ss
      → Processed (process_events random es ss out)
  unfolding process_events
  process_events-Processed [] ss out few k = (few, k)
  process_events-Processed (a ∷ es) ss out few k =
      on_slot-Processed a (find_slot a.token ss) ss out _
        (find_slot-Found (Pending out) a.token ss k) few k
        (λ ts us f q. process_events-Processed es ts us f q)

  module _ (i : ℕ) (w : Worker) (sh : Shared) (lt : i < length sh.worker_connection_counts)
      (h : IsSound random i w) where
    moved : (p : Stage) → held p ≡ [] → Leaves i sh (record { worker = at_stage p w; shared = sh })
    moved p e = record {
      sound = record {
        numbered = h.numbered;
        few = h.few;
        idle = λ c f. let g : c ∷ [] ≡ [] = ap held (sym f) ∙ e in absurd cc;
        served = h.served;
      };
      counts = refl;
      queue = refl;
      empty_handed = e;
    }

    processed-Leaves :
        (now : ℕ) (o : Option (List Slot × List ℕ))
        → Processed o
        → Leaves i sh (processed random now w sh o)
    processed-Leaves now none q = moved crashed refl
    processed-Leaves now (some (ss, out)) (few, k) =
        remove_all-Leaves i (out ++ timed_out now ss)
          (record w { connections = ss; stage = at_top }) sh lt h.numbered refl few
          (grown-All (Serves random) out (timed_out now ss) ss k)

    process_slots-Leaves :
        (ss : List Slot) (p : Polled) → Leaves i sh (process_slots random ss p w sh)
    process_slots-Leaves [] p = moved at_top refl
    process_slots-Leaves (s ∷ ss) (poll_error e) = moved (ended e) refl
    process_slots-Leaves (s ∷ ss) (woken es now) =
        processed-Leaves now (process_events random es w.connections []) (
          process_events-Processed es w.connections [] h.few
            (listed-All (Serves random) w.connections h.served))

    pub process-Leaves : (p : Polled) → Leaves i sh (process random p w sh)
    unfolding process
    process-Leaves p = process_slots-Leaves w.connections p
