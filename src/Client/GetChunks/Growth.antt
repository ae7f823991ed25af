-- ===== src/Client/GetChunks/Growth.antt =====
-- The growth of the pre-download (`increase_chunk_size` in
-- src/client/handlers/get_chunks.rs).
use native.Mathlib.Nat.{pow-suc, suc-add}
use nettest.Common.{ℕ, ◌+◌, ◌-◌, ◌*◌, ◌≤◌, ◌<◌, ◌≡◌, ap, min, arith, ltb, if_cases, zero, suc, ◌^◌}
use nettest.Chunks.{min_chunk_size, max_chunk_size}
use nettest.Client.{MeasurementState}
use nettest.Client.GetChunks.{increase_chunk_size, max_chunks_before_size_increase}

-- The client asks for some chunks, of a size that the server allows.
abbrev pub IsSized : MeasurementState → Type 0
IsSized s =
    (1 ≤ s.total_chunks)
    × (s.total_chunks ≤ 14)
    × (min_chunk_size ≤ s.chunk_size)
    × (s.chunk_size ≤ max_chunk_size)

-- What is left to grow.
abbrev pub room_left : MeasurementState → ℕ
room_left s = (8 - s.total_chunks) + (max_chunk_size - s.chunk_size)

-- A repetition of the pre-download, which is made only below the largest size, asks for more: the
-- sizes stay in the server's range, and what is left to grow gets less.
pub increase_chunk_size-IsSized :
    (s : MeasurementState)
    → IsSized s
    → s.chunk_size < max_chunk_size
    → IsSized (increase_chunk_size s) × (room_left (increase_chunk_size s) < room_left s)
unfolding increase_chunk_size
increase_chunk_size-IsSized s h k =
    if_cases (λ t. IsSized t × (room_left t < room_left s))
      (ltb s.total_chunks max_chunks_before_size_increase) (λ e. ground arith) (λ e. ground arith)

-- The pre-download after a number of repetitions.
unfoldable pub repeated : ℕ → MeasurementState → MeasurementState
repeated zero s = s
repeated (suc k) s = increase_chunk_size (repeated k s)

repeated-IsSized : (k : ℕ) (s : MeasurementState) → IsSized s → IsSized (repeated k s)
unfolding repeated increase_chunk_size
repeated-IsSized zero s h = h
repeated-IsSized (suc k) s h =
    let g = repeated-IsSized k s h in
    let t = repeated k s in
    if_cases IsSized (ltb t.total_chunks max_chunks_before_size_increase) (λ e. ground arith)
      (λ e. ground arith)

-- Up to eight chunks, their number is doubled.
doubled :
    (s : MeasurementState) (m : ℕ)
    → min m 8 ≤ s.total_chunks
    → min (2 * m) 8 ≤ (increase_chunk_size s).total_chunks
unfolding increase_chunk_size
doubled s m h =
    if_cases (λ (t : MeasurementState). min (2 * m) 8 ≤ t.total_chunks)
      (ltb s.total_chunks max_chunks_before_size_increase) (λ e. ground arith) (λ e. ground arith)

-- From eight chunks on, their size is.
enlarged :
    (s : MeasurementState) (m : ℕ)
    → 8 ≤ s.total_chunks
    → min m max_chunk_size ≤ s.chunk_size
    → (8 ≤ (increase_chunk_size s).total_chunks)
      × (min (2 * m) max_chunk_size ≤ (increase_chunk_size s).chunk_size)
unfolding increase_chunk_size
enlarged s m h k =
    if_cases
      (λ (t : MeasurementState). (8 ≤ t.total_chunks) × (min (2 * m) max_chunk_size ≤ t.chunk_size))
      (ltb s.total_chunks max_chunks_before_size_increase) (λ e. ground arith) (λ e. ground arith)

repeated-doubled :
    (k : ℕ) (s : MeasurementState)
    → 1 ≤ s.total_chunks
    → min (2 ^ k) 8 ≤ (repeated k s).total_chunks
unfolding repeated
repeated-doubled zero s h = ground arith
repeated-doubled (suc k) s h =
    let f = doubled (repeated k s) (2 ^ k) (repeated-doubled k s h) in ground (arith, pow-suc 2 k)

repeated-enlarged :
    (k : ℕ) (s : MeasurementState)
    → 8 ≤ s.total_chunks
    → min_chunk_size ≤ s.chunk_size
    → (8 ≤ (repeated k s).total_chunks)
      × (min (2 ^ k * min_chunk_size) max_chunk_size ≤ (repeated k s).chunk_size)
unfolding repeated
repeated-enlarged zero s h e = ground arith
repeated-enlarged (suc k) s h e =
    let g = repeated-enlarged k s h e in
    let f = enlarged (repeated k s) (2 ^ k * min_chunk_size) g.0 g.1 in ground (arith, pow-suc 2 k)

repeated_add : (j k : ℕ) (s : MeasurementState) → repeated (j + k) s ≡ repeated j (repeated k s)
unfolding repeated
repeated_add zero k s = ap (λ (j : ℕ). repeated j s) {x = 0 + k} {y = k} (omega arith)
repeated_add (suc j) k s = rw suc-add (ap increase_chunk_size (repeated_add j k s))

-- The pre-download is repeated thirteen times at most: then its chunks have the largest size, which
-- ends the repetition.
pub repeated-ends : (s : MeasurementState) → IsSized s → (repeated 13 s).chunk_size ≡ max_chunk_size
repeated-ends s h =
    let t = repeated 3 s in
    let e : 8 ≤ t.total_chunks = repeated-doubled 3 s h.0 in
    let g = repeated-IsSized 3 s h in
    let f = (repeated-enlarged 10 t e g.2).1 in
    let u = repeated-IsSized 13 s h in ground (arith, repeated_add 10 3 s)
