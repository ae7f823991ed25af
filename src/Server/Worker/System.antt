-- ===== src/Server/Worker/System.antt =====
-- The server's accept loop and its workers, interleaved in any order (`run` of
-- src/mioserver/server.rs and of src/mioserver/worker.rs).
use nettest.Common.{ℕ, ◌<◌, ◌==◌, Bool, List, [], ◌∷◌, ◌++◌, if◌then◌else◌, replicate, ◌≡◌}
use nettest.Chunks.{Filler}
use nettest.Net.{Stream}
use nettest.Server.Handshake.{Upgrades}
use nettest.Server.Worker.{
  ConnectionType, tcp, tls, Shared, at_top, at_poll, holding, Worker, new_worker, handle_connection,
  Both, take_connection,
}
use nettest.Server.Worker.Round.{Settling, settle, Polled, process}
use nettest.Server.Worker.Sound.{held}

pub record System : Type 0 where
  pub workers : ℕ → Worker
  pub shared : Shared

abbrev pub update : (ℕ → Worker) → ℕ → Worker → ℕ → Worker
update ws i w j = if j == i then w else ws j

abbrev pub put : System → ℕ → Both → System
put s i b = record { workers = update s.workers i b.worker; shared = b.shared }

-- `MioServer::new` with so many workers.
abbrev pub initial : ℕ → System
initial n = record {
  workers = new_worker;
  shared = record { global_queue = []; worker_connection_counts = replicate n 0 };
}

abbrev pub connection_of : Bool → Stream → ConnectionType
connection_of is_tls s = if is_tls then tls s else tcp s

module _ (random : Filler) (lib : Upgrades) (n : ℕ) where
  -- The states that the server comes to, with the connections that it has accepted and those that its
  -- workers have taken, each in their order.
  pub data Reach : System → List ConnectionType → List ConnectionType → Type 0 where
    begin : Reach (initial n) [] []
    accepts :
        {s : System} {accepted taken : List ConnectionType} (is_tls : Bool) (stream : Stream)
        → Reach s accepted taken
        → Reach
            (record s { shared = handle_connection is_tls stream s.shared })
            (accepted ++ connection_of is_tls stream ∷ [])
            taken
    takes :
        {s : System} {accepted taken : List ConnectionType} (i : ℕ)
        → i < n
        → (s.workers i).stage ≡ at_top
        → Reach s accepted taken
        → Reach
            (put s i (take_connection (s.workers i) s.shared))
            accepted
            (taken ++ held (take_connection (s.workers i) s.shared).worker.stage)
    settles :
        {s : System} {accepted taken : List ConnectionType} (i : ℕ) (x : Settling)
        (c : ConnectionType)
        → i < n
        → (s.workers i).stage ≡ holding c
        → Reach s accepted taken
        → Reach
            (put s i (record { worker = settle random lib x c (s.workers i); shared = s.shared }))
            accepted
            taken
    processes :
        {s : System} {accepted taken : List ConnectionType} (i : ℕ) (p : Polled)
        → i < n
        → (s.workers i).stage ≡ at_poll
        → Reach s accepted taken
        → Reach (put s i (process random p (s.workers i) s.shared)) accepted taken
