-- ===== src/Server/GetChunks/Confirmation.antt =====
-- The confirmation of a download that comes in pieces (`handle_get_chunks_receive_ok` in
-- src/mioserver/handlers/getchunks.rs, and the same loop in gettime.rs).
use nettest.Common.{
  ℕ, ◌≤◌, ◌<◌, ◌≡◌, ◌≢◌, ◌⊎◌, false, List, ◌∷◌, Bytes, codes, length, take, bytes_eq,
}
use nettest.Net.{Outcome, ok, err, panic, Reader, ReadCall, arrive, read_loop}
use nettest.Server.Greeting.{ok_line}
use nettest.Server.GetChunks.{until_ok}

abbrev pub Refuses : {S : Type 0} → Outcome S → Type 0
Refuses (ok n s) = ⊥
Refuses (err e s) = Unit
Refuses (panic s) = Unit

-- The position is behind the three bytes, or they do not begin with an `O`.
abbrev IsStuck : Reader → Type 0
IsStuck r =
    (3 < r.pos) ⊎ ((r.pos ≡ 3) × (c : ℕ) × (rest : Bytes) × (r.buffer ≡ c ∷ rest) × (c ≢ b'O'))

-- No confirmation is recognised in so many bytes of a buffer.
abbrev Differs : ℕ → Bytes → Type 0
Differs n buffer = n ≤ length buffer → bytes_eq (take n buffer) ok_line ≡ false

-- The loop of the two handlers.
abbrev confirmation_loop : List ReadCall → Reader → Outcome Reader
confirmation_loop es r = read_loop (λ r. 0) until_ok es r

-- The line `OK\n` in pieces, and whatever arrives behind it.
pub data Cut : List ReadCall → Type 0 where
  o_k : (t u : ℕ) (rs : List ReadCall) → Cut (arrive t (codes "O") ∷ arrive u (codes "K\n") ∷ rs)
  ok_ : (t u : ℕ) (rs : List ReadCall) → Cut (arrive t (codes "OK") ∷ arrive u (codes "\n") ∷ rs)
  o_k_ :
      (t u v : ℕ) (rs : List ReadCall)
      → Cut (arrive t (codes "O") ∷ arrive u (codes "K") ∷ arrive v (codes "\n") ∷ rs)

-- So many bytes have been counted, in a buffer with room for the line.
abbrev IsAt : ℕ → Reader → Type 0
IsAt n r = (r.pos ≡ n) × (3 ≤ length r.buffer)
