-- ===== src/Server/Put/Counts.antt =====
-- What the upload's reading handler counts (src/mioserver/handlers/put.rs).
use nettest.Common.{
  ℕ, ◌+◌, ◌-◌, ◌≤◌, ◌≡◌, arith, Bytes, length, take, drop, splice, ◌++◌, length-append, length-take,
  length-drop, none,
}
use nettest.Net.{Outcome, ok, err, panic}
use nettest.Server.{TestState, u64, put_send_bytes}

pub length-splice :
    (i : ℕ) (ys xs : Bytes) → i + length ys ≤ length xs → length (splice i ys xs) ≡ length xs
length-splice i ys xs h = omega (
  arith,
  length-append (take i xs) (ys ++ drop (i + length ys) xs),
  length-append ys (drop (i + length ys) xs),
  length-take i xs,
  length-drop (i + length ys) xs,
)

-- The bytes that a handler has read and counted since the state `s`.
abbrev pub Counted : TestState → TestState → Type 0
Counted s t =
    (s.read_pos ≤ t.read_pos)
    × (t.read_pos ≤ length t.chunk_buffer)
    × (length t.chunk_buffer ≡ length s.chunk_buffer)
    × (t.chunk_size ≡ s.chunk_size)
    × (t.total_bytes ≡ u64 (s.total_bytes + (t.read_pos - s.read_pos)))
    × (t.clock ≡ s.clock)

abbrev pub Counts : TestState → Outcome TestState → Type 0
Counts s (ok n t) =
    Counted s t × (t.read_pos ≡ s.chunk_size) × (t.measurement_state ≡ put_send_bytes)
Counts s (err e t) = Counted s t
Counts s (panic t) = Counted s t × (s.clock ≡ none)
