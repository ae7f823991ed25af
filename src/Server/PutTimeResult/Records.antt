-- ===== src/Server/PutTimeResult/Records.antt =====
-- What the upload's reading handler records (src/mioserver/handlers/puttimeresult.rs).
use nettest.Common.{ℕ, ◌+◌, ◌*◌, suc, ◌++◌, ◌≡◌, ◌∷◌, [], List, length, some}
use nettest.Net.{Outcome, ok, err, panic, would_block, Flow}
use nettest.Net.Loop.{HeldFlow}
use nettest.Server.{TestState, u64, elapsed, put_time_result_send_time_result}
use nettest.Server.PutTimeResult.{time_result_round}

-- The bytes of the records behind `k` others: one chunk more in each.
abbrev pub Steps : ℕ → ℕ → List (ℕ × ℕ) → Type 0
Steps size k [] = Unit
Steps size k ((t, b) ∷ rs) = (b ≡ u64 (size * suc k)) × Steps size (suc k) rs

-- The last record, made at the time that the clock shows.
abbrev pub Stamped : TestState → Type 0
Stamped t =
    (rs : List (ℕ × ℕ)) × (since : ℕ) × (t.clock ≡ some since)
    × (t.bytes_received ≡ rs ++ (u64 (elapsed t since), t.total_bytes) ∷ [])

-- Every chunk recorded, and what has been read of the next one, is counted.
abbrev pub Recorded : ℕ → TestState → Type 0
Recorded size t =
    (t.chunk_size ≡ size)
    × (t.total_bytes ≡ u64 (size * length t.bytes_received + t.read_pos))
    × Steps size 0 t.bytes_received

abbrev pub Records : ℕ → Outcome TestState → Type 0
Records size (ok n t) =
    Recorded size t
    × (t.read_pos ≡ 0)
    × (t.measurement_state ≡ put_time_result_send_time_result)
    × Stamped t
Records size (err would_block t) = Recorded size t
Records size (err e t) = Unit
Records size (panic t) = Unit

module _ (size : ℕ) where
  abbrev FlowRecords : Flow TestState → Type 0
  FlowRecords f = HeldFlow time_result_round (Recorded size) (Records size) f
