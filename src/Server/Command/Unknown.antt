-- ===== src/Server/Command/Unknown.antt =====
-- A line that is no command (the end of `handle_main_command_receive` in
-- src/mioserver/handlers/common.rs).
use nettest.Common.{ℕ, ◌≤◌, ◌<◌, ◌≡◌, ◌⊎◌, true, ◌∷◌, Bytes, codes, length, contains}
use nettest.Net.{Outcome, ok, err, panic, would_block, Reader}
use nettest.Server.{TestState, accept_command_receive, get_chunk_send_chunk}

-- The line that is being read has begun with a byte, in the buffer.
abbrev pub IsUnknown : ℕ → ℕ → Bytes → Type 0
IsUnknown c pos buffer = (0 < pos) × (pos ≤ length buffer) × (rest : Bytes) × (buffer ≡ c ∷ rest)

abbrev pub Waits : ℕ → TestState → Type 0
Waits c t = (t.measurement_state ≡ accept_command_receive) × IsUnknown c t.read_pos t.read_buffer

-- A GETCHUNKS stands in the bytes that have been read.
abbrev pub HasGetChunks : TestState → Type 0
HasGetChunks t = contains (codes "GETCHUNKS") t.read_buffer ≡ true

-- Only a GETCHUNKS, wherever it stands in the line, is still taken up: without one, the connection waits
-- for the rest of its line, and neither a panic nor another phase comes of what has arrived.
abbrev pub Ignores : ℕ → Outcome TestState → Type 0
Ignores c (ok n t) = ((t.measurement_state ≡ get_chunk_send_chunk) × HasGetChunks t) ⊎ Waits c t
Ignores c (err would_block t) = Waits c t
Ignores c (err e t) = HasGetChunks t ⊎ Waits c t
Ignores c (panic t) = HasGetChunks t

module _ (c : ℕ) where
  abbrev Reads : Reader → Type 0
  Reads r = IsUnknown c r.pos r.buffer

  abbrev Read : Outcome Reader → Type 0
  Read (ok n r) = Reads r
  Read (err e r) = Reads r
  Read (panic r) = ⊥
