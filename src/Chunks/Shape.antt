-- ===== src/Chunks/Shape.antt =====
-- The length and the last byte of the chunks that are sent (src/client/globals.rs).
use mathlib.Core.Path.{subst}
use nettest.Common.{
  ℕ, zero, suc, ◌-◌, ◌*◌, ◌≤◌, ◌≡◌, ◌⊎◌, inl, inr, refl, Bool, true, false, [], ◌∷◌, ◌++◌, Option,
  some, Bytes, arith, length, take, length-take, length-append, get_elem?, leb, if_cases, ◌&&◌,
}
use nettest.Chunks.{
  Filler, max_chunk_size, min_chunk_size, stored_from, is_stored, set_last, last_byte, storage_get,
  get_chunk,
}

get_elem?-last : (xs : Bytes) (b n : ℕ) → length xs ≡ n → get_elem? (xs ++ b ∷ []) n ≡ some b
get_elem?-last [] b zero h = refl
get_elem?-last [] b (suc n) h = ground arith
get_elem?-last (x ∷ xs) b zero h = ground arith
get_elem?-last (x ∷ xs) b (suc n) h = get_elem?-last xs b n (omega arith)

-- A chunk of a size: as many bytes, the last of which says whether another chunk follows.
abbrev pub IsChunk : Bool → ℕ → Bytes → Type 0
IsChunk true size chunk = (length chunk ≡ size) × (get_elem? chunk (size - 1) ≡ some 0xFF)
IsChunk false size chunk = (length chunk ≡ size) × (get_elem? chunk (size - 1) ≡ some 0x00)

IsChunk-last :
    (terminal : Bool) (size : ℕ) (chunk : Bytes)
    → length chunk ≡ size
    → get_elem? chunk (size - 1) ≡ some (last_byte terminal)
    → IsChunk terminal size chunk
IsChunk-last true size chunk h k = (h, k)
IsChunk-last false size chunk h k = (h, k)

IsChunk-length :
    (terminal : Bool) (size : ℕ) (chunk : Bytes) → IsChunk terminal size chunk → length chunk ≡ size
IsChunk-length true size chunk h = h.0
IsChunk-length false size chunk h = h.0

set_last-IsChunk :
    (terminal : Bool) (size : ℕ) (buffer : Bytes)
    → 1 ≤ size
    → size ≤ length buffer
    → IsChunk terminal size (set_last size (last_byte terminal) buffer)
set_last-IsChunk terminal size buffer h k =
    let e = length-take (size - 1) buffer in
    IsChunk-last terminal size _
      (omega (arith, e, length-append (take (size - 1) buffer) (last_byte terminal ∷ [])))
      (get_elem?-last (take (size - 1) buffer) (last_byte terminal) (size - 1) (omega (arith, e)))

stored_from-positive : (f size n : ℕ) → 1 ≤ size → stored_from f size n ≡ true → 1 ≤ n
unfolding stored_from
stored_from-positive zero size n h e = ground arith
stored_from-positive (suc f) size n h e = ground (arith, stored_from-positive f (size * 2) n)

is_stored-positive : (n : ℕ) → is_stored n ≡ true → 1 ≤ n
unfolding is_stored
is_stored-positive n e = stored_from-positive 12 min_chunk_size n (omega arith) e

of_some :
    (terminal : Bool) (size : ℕ) (made chunk : Bytes)
    → IsChunk terminal size made
    → some made ≡ some chunk
    → IsChunk terminal size chunk
of_some terminal size made chunk h e =
    let f : made ≡ chunk = cc in subst (IsChunk terminal size) f h

take-fits :
    (size most : ℕ) (xs : Bytes) → size ≤ most → length xs ≡ most → size ≤ length (take size xs)
take-fits size most xs h e = omega (arith, length-take size xs)

sizes :
    (size : ℕ)
    → (leb 1 size && leb size max_chunk_size) ≡ true
    → (1 ≤ size) × (size ≤ max_chunk_size)
sizes size e = ground arith

largest_chunk :
    (random : Filler)
    → length (set_last max_chunk_size (last_byte false) (random.fill_bytes false max_chunk_size))
      ≡ max_chunk_size
largest_chunk random =
    (set_last-IsChunk false max_chunk_size (random.fill_bytes false max_chunk_size) (omega arith)
      (omega (arith, random.length-fill_bytes false max_chunk_size))).0

storage_get-IsChunk :
    (random : Filler) (terminal : Bool) (size : ℕ) (chunk : Bytes)
    → storage_get random terminal size ≡ some chunk
    → IsChunk terminal size chunk
unfolding storage_get
storage_get-IsChunk random terminal size chunk =
    if_cases (λ (o : Option Bytes). o ≡ some chunk → IsChunk terminal size chunk) (is_stored size)
      (λ e f.
        of_some terminal size (set_last size (last_byte terminal) (random.fill_bytes terminal size))
          chunk
          (set_last-IsChunk terminal size (random.fill_bytes terminal size)
            (is_stored-positive size e) (omega (arith, random.length-fill_bytes terminal size)))
          f)
      (λ e f. ground arith)

get_chunk-IsChunk :
    (random : Filler) (terminal : Bool) (size : ℕ) (chunk : Bytes)
    → get_chunk random size terminal ≡ some chunk
    → IsChunk terminal size chunk
unfolding get_chunk
get_chunk-IsChunk random terminal size chunk =
    if_cases (λ (o : Option Bytes). o ≡ some chunk → IsChunk terminal size chunk)
      (leb 1 size && leb size max_chunk_size)
      (λ e f.
        let largest =
          set_last max_chunk_size (last_byte false) (random.fill_bytes false max_chunk_size) in
        of_some terminal size (set_last size (last_byte terminal) (take size largest)) chunk
          (set_last-IsChunk terminal size (take size largest) (sizes size e).0
            (take-fits size max_chunk_size largest (sizes size e).1 (largest_chunk random)))
          f)
      (λ e f. ground arith)

-- Every chunk that is found in a store or made has the size asked for, and ends in 0xFF if it is the
-- last one of a transfer and in 0x00 if not, whatever the random bytes are.
pub supplied-IsChunk :
    (random : Filler) (terminal : Bool) (size : ℕ) (chunk : Bytes)
    → (storage_get random terminal size ≡ some chunk)
      ⊎ (get_chunk random size terminal ≡ some chunk)
    → IsChunk terminal size chunk
supplied-IsChunk random terminal size chunk (inl e) =
    storage_get-IsChunk random terminal size chunk e
supplied-IsChunk random terminal size chunk (inr e) = get_chunk-IsChunk random terminal size chunk e
