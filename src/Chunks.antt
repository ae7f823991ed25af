-- ===== src/Chunks.antt =====
-- The chunks that are sent (src/client/globals.rs). `random` is `fastrand::fill`: the bytes that it
-- puts into a buffer of a size, for the plain and for the terminating chunk of that size.
pub mod Shape
use nettest.Common.{
  ℕ, zero, suc, ◌-◌, ◌*◌, Bool, true, false, ◌&&◌, ◌||◌, ◌++◌, [], ◌∷◌, ◌==◌, leb, if◌then◌else◌,
  Option, none, some, Bytes, take, length, ◌≡◌,
}

abbrev pub min_chunk_size : ℕ
min_chunk_size = 4096

abbrev pub max_chunk_size : ℕ
max_chunk_size = 4194304

-- `while size <= MAX_CHUNK_SIZE { storage.insert(size, …); size *= 2 }`: is there a chunk of size `n`?
stored_from : ℕ → ℕ → ℕ → Bool
stored_from zero size n = false
stored_from (suc f) size n =
    let rest = stored_from f (size * 2) n in leb size max_chunk_size && (size == n || rest)

-- The loop makes eleven rounds: 4096 doubled ten times is the largest size.
unfoldable pub is_stored : ℕ → Bool
unfolding stored_from
is_stored = stored_from 12 min_chunk_size

-- `buffer[size - 1] = b`.
abbrev pub set_last : ℕ → ℕ → Bytes → Bytes
set_last size b buffer = take (size - 1) buffer ++ b ∷ []

abbrev pub last_byte : Bool → ℕ
last_byte true = 0xFF
last_byte false = 0x00

-- What `fastrand::fill` gives: any bytes, as many as the buffer has.
pub record Filler : Type 0 where
  pub fill_bytes : Bool → ℕ → Bytes
  pub length-fill_bytes : (terminal : Bool) (size : ℕ) → length (fill_bytes terminal size) ≡ size

module _ (random : Filler) where
  -- `CHUNK_STORAGE.get(&size)`, and `CHUNK_TERMINATION_STORAGE.get(&size)` where `terminal`.
  unfoldable pub storage_get : Bool → ℕ → Option Bytes
  unfolding is_stored
  storage_get terminal size =
      if is_stored size
      then some (set_last size (last_byte terminal) (random.fill_bytes terminal size))
      else none

  -- `get_chunk(size, terminal)`: a part of the largest chunk, with its own last byte. A size of 0 or
  -- beyond the largest chunk's is a panic.
  unfoldable pub get_chunk : ℕ → Bool → Option Bytes
  get_chunk size terminal =
      let largest =
        set_last max_chunk_size (last_byte false) (random.fill_bytes false max_chunk_size) in
      if leb 1 size && leb size max_chunk_size
      then some (set_last size (last_byte terminal) (take size largest))
      else none
