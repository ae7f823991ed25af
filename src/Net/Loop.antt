-- ===== src/Net/Loop.antt =====
-- The loops that write a message and read into a buffer, over every script of the calls to come.
use nettest.Common.{
  leb, ℕ, zero, suc, ◌+◌, ◌-◌, ◌≤◌, min, Bool, true, List, [], ◌∷◌, ◌++◌, Option, Bytes, length,
  take, drop, slice, slice?, Bool-cases, ◌≡◌, ◌⊎◌, inl, inr, refl, ap, arith, append_assoc,
  append-nil, length-take, length-drop, take-append-take,
}
use native.Mathlib.Nat.{zero-add, suc-add}
use nettest.Net.{
  Reader, ReadCall, arrive, read_fails, read, read_loop, pop_read, Flow, again, stop, would_block,
  is_some, write_part, pop_write, Outcome, ok, err, panic, final, Stream, Cursor, WriteCall, accept,
  write_fails, write, ZeroWrite, is_zero, advance, write_loop, io_loop,
}

take-nil : (n : ℕ) → take {A = ℕ} n [] ≡ []
take-nil zero = refl
take-nil (suc n) = refl

drop-nil : (n : ℕ) → drop {A = ℕ} n [] ≡ []
drop-nil zero = refl
drop-nil (suc n) = refl

take-drop-drop :
    (i j k : ℕ) (xs : Bytes)
    → take i (drop k xs) ++ take j (drop (k + i) xs) ≡ take (i + j) (drop k xs)
take-drop-drop i j zero xs = rw (zero-add) (take-append-take i j xs)
take-drop-drop i j (suc k) [] = rw (take-nil i, drop-nil, take-nil j, take-nil)
take-drop-drop i j (suc k) (x ∷ xs) = rw suc-add (take-drop-drop i j k xs)

-- Neighbouring slices make one.
pub slice-append-slice :
    (a b c : ℕ) (xs : Bytes) → a ≤ b → b ≤ c → slice a b xs ++ slice b c xs ≡ slice a c xs
slice-append-slice a b c xs h k =
    let e : a + (b - a) ≡ b = omega arith in
    let f : (b - a) + (c - b) ≡ c - a = omega arith in
    rw (← f) (rw e at (take-drop-drop (b - a) (c - b) a xs))

pub take-take : (k n : ℕ) (xs : Bytes) → k ≤ n → take k (take n xs) ≡ take k xs
take-take zero n xs h = refl
take-take (suc k) zero xs h = absurd (omega arith)
take-take (suc k) (suc n) [] h = refl
take-take (suc k) (suc n) (x ∷ xs) h = ap (λ r. x ∷ r) (take-take k n xs (omega arith))

pub slice_self : (a : ℕ) (xs : Bytes) → slice a a xs ≡ []
slice_self a xs = let e : a - a ≡ 0 = omega arith in rw e

-- The first bytes of a slice are a slice.
pub take-slice : (a b k : ℕ) (xs : Bytes) → k ≤ b - a → take k (slice a b xs) ≡ slice a (a + k) xs
take-slice a b k xs h =
    let e : a + k - a ≡ k = omega arith in rw e (take-take k (b - a) (drop a xs) h)

pub length-slice : (a b : ℕ) (xs : Bytes) → b ≤ length xs → length (slice a b xs) ≡ b - a
length-slice a b xs h = omega (arith, length-take (b - a) (drop a xs), length-drop a xs)

-- The rule for a loop: `P` holds before every round, and `Q` of every way to leave the loop.
module _ {S : Type 0} (body : ℕ → S → Flow S) (P : S → Type 0) (Q : Outcome S → Type 0) where
  abbrev pub HeldFlow : Flow S → Type 0
  HeldFlow (again u) = P u
  HeldFlow (stop o) = Q o

  abbrev pub Held : Outcome S → Type 0
  Held (ok n t) = HeldFlow (body n t)
  Held (err k t) = Q (err k t)
  Held (panic t) = Q (panic t)

  onward :
      (f : Flow S) (k : S → Outcome S)
      → ((u : S) → P u → Q (k u))
      → HeldFlow f
      → Q (elim f [ stop o ↦ o | again u ↦ k u ])
  onward (again u) k ih g = ih u g
  onward (stop o) k ih g = g

  after :
      (o : Outcome S) (k : S → Outcome S)
      → ((u : S) → P u → Q (k u))
      → Held o
      → Q (elim o [
        | err e t ↦ err e t
        | panic t ↦ panic t
        | ok n t ↦ elim (body n t) [ stop o ↦ o | again u ↦ k u ]
      ])
  after (ok n t) k ih g = onward (body n t) k ih g
  after (err e t) k ih g = g
  after (panic t) k ih g = g

module _ {S E : Type 0} (ready : S → Bool) (pop : List E → S → S) (call : E → S → Outcome S)
    (body : ℕ → S → Flow S) (P : S → Type 0) (Q : Outcome S → Type 0) where
  pub io_loop_inv :
      ((s : S) → P s → ready s ≡ true)
      → ((s : S) → P s → Q (err would_block s))
      → ((e : E) (es : List E) (s : S) → P s → Held body P Q (call e (pop es s)))
      → (es : List E) (s : S) → P s
      → Q (io_loop ready pop call body es s)
  unfolding io_loop
  io_loop_inv fits idle round [] s h = rw (fits s h, io_loop) (idle s h)
  io_loop_inv fits idle round (e ∷ es) s h =
      rw (fits s h, io_loop)
        (after body P Q (call e (pop es s)) (io_loop ready pop call body es)
          (λ u g. io_loop_inv fits idle round es u g) (round e es s h))

-- How a loop over `len` bytes ends: never in a panic, and in success only behind the last byte.
abbrev pub Ends : ZeroWrite → ℕ → Outcome Cursor → Type 0
Ends z len (ok n c) = (c.pos ≡ len) ⊎ ((z ≡ is_zero) × (n ≡ 0))
Ends z len (err e c) = Unit
Ends z len (panic c) = ⊥

pub record Wrote (z : ZeroWrite) (buf : Bytes) (len : ℕ) (c : Cursor) (o : Outcome Cursor)
    : Type 0 where
  pub from : c.pos ≤ (final o).pos
  pub to : (final o).pos ≤ len
  pub sent : (final o).stream.sent ≡ c.stream.sent ++ slice c.pos (final o).pos buf
  pub ends : Ends z len o

module _ (z : ZeroWrite) (buf : Bytes) (len : ℕ) (c : Cursor) where
  abbrev WroteTo : Cursor → Type 0
  WroteTo d =
      (c.pos ≤ d.pos)
      × (d.pos ≤ len)
      × (len ≤ length buf)
      × (d.stream.sent ≡ c.stream.sent ++ slice c.pos d.pos buf)

  write_round :
      (w : WriteCall) (ws : List WriteCall) (d : Cursor)
      → WroteTo d
      → Held
          (advance z len)
          WroteTo
          (Wrote z buf len c)
          (write_part (λ p. slice? p len buf) w (pop_write ws d))
  unfolding write advance
  write_round (accept t n) ws d h = ground (
    arith,
    take-slice d.pos len (min n (len - d.pos)) buf,
    length-slice d.pos len buf,
    slice-append-slice c.pos d.pos (d.pos + min n (len - d.pos)) buf,
    append_assoc c.stream.sent (slice c.pos d.pos buf)
        (slice d.pos (d.pos + min n (len - d.pos)) buf),
  )
  write_round (write_fails t e) ws d h = ground arith

  pub write_loop-Wrote :
      (ws : List WriteCall)
      → c.pos ≤ len
      → len ≤ length buf
      → Wrote z buf len c (write_loop z (λ p. slice? p len buf) len ws c)
  unfolding write_loop
  write_loop-Wrote ws h k =
      io_loop_inv (λ d. is_some (slice? d.pos len buf)) pop_write
        (write_part (λ p. slice? p len buf)) (advance z len) WroteTo (Wrote z buf len c)
        (λ d g. ground arith) (λ d g. ground arith) write_round ws c
        (ground (arith, slice_self c.pos buf, append-nil c.stream.sent))

-- What a loop leaves alone in the stream.
abbrev pub Kept : Stream → Stream → Type 0
Kept s t =
    (t.interest ≡ s.interest)
    × (t.registrations ≡ s.registrations)
    × (t.flushes ≡ s.flushes)
    × (t.kind ≡ s.kind)

module _ (z : ZeroWrite) (part : ℕ → Option Bytes) (len : ℕ) (c : Cursor) where
  write_round-Kept :
      (w : WriteCall) (ws : List WriteCall) (d : Cursor)
      → Kept c.stream d.stream
      → Held
          (advance z len)
          (λ d. Kept c.stream d.stream)
          (λ o. Kept c.stream (final o).stream)
          (write_part part w (pop_write ws d))
  unfolding write advance
  write_round-Kept (accept t n) ws d h = ground arith
  write_round-Kept (write_fails t e) ws d h = ground arith

module _ {S E : Type 0} (ready : S → Bool) (pop : List E → S → S) (call : E → S → Outcome S)
    (body : ℕ → S → Flow S) (P : S → Type 0) (Q : Outcome S → Type 0) where
  -- The rule where a slice out of range is one more way to leave the loop.
  pub io_loop_inv_panic :
      ((s : S) → P s → Q (err would_block s))
      → ((s : S) → P s → Q (panic s))
      → ((e : E) (es : List E) (s : S) → P s → Held body P Q (call e (pop es s)))
      → (es : List E) (s : S) → P s
      → Q (io_loop ready pop call body es s)
  unfolding io_loop
  io_loop_inv_panic idle out round [] s h = elim (Bool-cases (ready s)) [
    | inl e ↦ rw (e, io_loop) (idle s h)
    | inr e ↦ rw (e, io_loop) (out s h)
  ]
  io_loop_inv_panic idle out round (e ∷ es) s h = elim (Bool-cases (ready s)) [
    | inl f ↦
        rw (f, io_loop)
          (after body P Q (call e (pop es s)) (io_loop ready pop call body es)
            (λ u g. io_loop_inv_panic idle out round es u g) (round e es s h))
    | inr f ↦ rw (f, io_loop) (out s h)
  ]

module _ {S E : Type 0} (ready : S → Bool) (pop : List E → S → S) (call : E → S → Outcome S)
    (body : ℕ → S → Flow S) (P : S → Type 0) (Q : Outcome S → Type 0) where
  -- One round of a loop, and what is left of it.
  pub io_loop_step :
      (e : E) (es : List E) (s : S)
      → Q (panic s)
      → Held body P Q (call e (pop es s))
      → ((u : S) → P u → Q (io_loop ready pop call body es u))
      → Q (io_loop ready pop call body (e ∷ es) s)
  unfolding io_loop
  io_loop_step e es s out round rest = elim (Bool-cases (ready s)) [
    | inl f ↦
        rw (f, io_loop)
          (after body P Q (call e (pop es s)) (io_loop ready pop call body es) rest round)
    | inr f ↦ rw (f, io_loop) out
  ]

pub write_loop-Kept :
    (z : ZeroWrite) (part : ℕ → Option Bytes) (len : ℕ) (ws : List WriteCall) (c : Cursor)
    → Kept c.stream (final (write_loop z part len ws c)).stream
unfolding write_loop
write_loop-Kept z part len ws c =
    io_loop_inv_panic (λ d. is_some (part d.pos)) pop_write (write_part part) (advance z len)
      (λ d. Kept c.stream d.stream) (λ o. Kept c.stream (final o).stream) (λ d g. g) (λ d g. g)
      (write_round-Kept z part len c) ws c (refl, refl, refl, refl)

-- A body that only moves the position, and then goes on, returns or panics.
abbrev pub StreamKept : Reader → Flow Reader → Type 0
StreamKept r (again t) = Kept r.stream t.stream
StreamKept r (stop o) = Kept r.stream (final o).stream

module _ (body : ℕ → Reader → Flow Reader) (keeps : (n : ℕ) (r : Reader) → StreamKept r (body n r))
    (r : Reader) where
  onward-Kept :
      (d : Reader) (f : Flow Reader)
      → Kept r.stream d.stream
      → StreamKept d f
      → HeldFlow body (λ d. Kept r.stream d.stream) (λ o. Kept r.stream (final o).stream) f
  onward-Kept d (again t) h k = ground arith
  onward-Kept d (stop o) h k = ground arith

  outcome-Kept :
      (o : Outcome Reader)
      → Kept r.stream (final o).stream
      → Held body (λ d. Kept r.stream d.stream) (λ o. Kept r.stream (final o).stream) o
  outcome-Kept (ok n t) h = onward-Kept t (body n t) h (keeps n t)
  outcome-Kept (err e t) h = h
  outcome-Kept (panic t) h = h

  read_call-Kept :
      (at : ℕ) (e : ReadCall) (d : Reader)
      → Kept r.stream d.stream
      → Kept r.stream (final (read at e d)).stream
  unfolding read
  read_call-Kept at (arrive t bs) d h = h
  read_call-Kept at (read_fails t e) d h = h

  read_round :
      (at : Reader → ℕ) (e : ReadCall) (es : List ReadCall) (d : Reader)
      → Kept r.stream d.stream
      → Held body
          (λ d. Kept r.stream d.stream)
          (λ o. Kept r.stream (final o).stream)
          (read (at (pop_read es d)) e (pop_read es d))
  read_round at e es d h =
      outcome-Kept (read _ e (pop_read es d)) (read_call-Kept _ e (pop_read es d) h)

  pub read_loop-Kept :
      (at : Reader → ℕ) (es : List ReadCall) → Kept r.stream (final (read_loop at body es r)).stream
  unfolding read_loop
  read_loop-Kept at es =
      io_loop_inv_panic (λ d. leb (at d) (length d.buffer)) pop_read (λ e d. read (at d) e d) body
        (λ d. Kept r.stream d.stream) (λ o. Kept r.stream (final o).stream) (λ d g. g) (λ d g. g)
        (read_round at) es r (refl, refl, refl, refl)
