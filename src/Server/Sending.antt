-- ===== src/Server/Sending.antt =====
-- The handlers that send one message from the write buffer: what reaches the peer.
pub mod Replies
pub mod Once
use nettest.Common.{
  ℕ, zero, suc, ◌+◌, ◌-◌, ◌≤◌, List, [], ◌∷◌, ◌++◌, Bytes, Option, length, take, drop, slice,
  slice?, splice, ◌≡◌, ◌≢◌, refl, sym, ap, arith, append_assoc, append-nil, length-append,
  length-take, length-drop, if◌then◌else◌, ◌==◌, take-length-append, inl, inr, ◌∙◌,
}
use nettest.Net.{
  ErrorKind, Outcome, ok, err, panic, final, Stream, Cursor, ZeroWrite, is_zero, write_loop,
  would_block, other, timed_out, unexpected_eof,
}
use native.Mathlib.Decide.{ℕ_discrete}
use nettest.Net.Loop.{Wrote, Kept, write_loop-Wrote, write_loop-Kept, slice-append-slice, take-take}
use nettest.Server.{ServerTestPhase, TestState, fill, write_to, then_written}

drop-take : (a n : ℕ) (xs : Bytes) → drop a (take n xs) ≡ take (n - a) (drop a xs)
drop-take zero n xs = let e : n - 0 ≡ n = omega arith in rw e
drop-take (suc a) zero xs = let e : 0 - suc a ≡ 0 = omega arith in rw e
drop-take (suc a) (suc n) [] = take-nil (suc n - suc a)
  where
    take-nil : (k : ℕ) → [] ≡ take {A = ℕ} k []
    take-nil zero = refl
    take-nil (suc k) = refl
drop-take (suc a) (suc n) (x ∷ xs) =
    let e : suc n - suc a ≡ n - a = omega arith in rw e (drop-take a n xs)

-- A slice within the first `n` bytes is one of those bytes.
slice-take : (a b n : ℕ) (xs : Bytes) → b ≤ n → slice a b (take n xs) ≡ slice a b xs
slice-take a b n xs h = rw (drop-take a n xs) (take-take (b - a) (n - a) (drop a xs) (omega arith))

take-append-slice : (p q : ℕ) (m : Bytes) → p ≤ q → take p m ++ slice p q m ≡ take q m
take-append-slice p q m h =
    let e : p - 0 ≡ p = omega arith in
    let f : q - 0 ≡ q = omega arith in
    rw f at (rw e at (slice-append-slice 0 p q m (omega arith) h))

pub take_all : (m : Bytes) → take (length m) m ≡ m
take_all [] = refl
take_all (x ∷ m) = ap (λ r. x ∷ r) (take_all m)

-- `m` is being sent behind `base`: the first `write_pos` bytes of it have been taken.
pub record IsSending (m base : Bytes) (s : TestState) : Type 0 where
  pub within : s.write_pos ≤ length m
  pub fits : length m ≤ length s.write_buffer
  pub sent : s.stream.sent ≡ base ++ take s.write_pos m
  pub loaded : s.write_pos ≢ 0 → take (length m) s.write_buffer ≡ m

pub length-splice : (m xs : Bytes) → length m ≤ length xs → length (splice 0 m xs) ≡ length xs
length-splice m xs h =
    omega (arith, length-append m (drop (0 + length m) xs), length-drop (0 + length m) xs)

pub fill-loaded :
    (m base : Bytes) (s : TestState)
    → IsSending m base s
    → (take (length m) (fill m s).write_buffer ≡ m) × (length m ≤ length (fill m s).write_buffer)
fill-loaded m base s h = ground (
  arith,
  take-length-append m (drop (0 + length m) s.write_buffer),
  length-append m (drop (0 + length m) s.write_buffer),
  h.loaded,
)

-- What a loop adds to the bytes sent, if the buffer holds the message.
sent_upto :
    (m base buf : Bytes) (p q : ℕ)
    → p ≤ q
    → q ≤ length m
    → take (length m) buf ≡ m
    → (base ++ take p m) ++ slice p q buf ≡ base ++ take q m
sent_upto m base buf p q h k l =
    let e : slice p q buf ≡ slice p q m =
      sym (slice-take p q (length m) buf k) ∙ ap (λ (b : Bytes). slice p q b) l in
    rw (e, append_assoc) (ap (λ (r : Bytes). base ++ r) (take-append-slice p q m h))

-- How a handler that sends `m` ends; `p` is its phase and `next` the one behind it.
abbrev pub Sends : Bytes → Bytes → ServerTestPhase → ServerTestPhase → Outcome TestState → Type 0
Sends m base p next (ok n t) =
    (t.measurement_state ≡ next) × (t.write_pos ≡ 0) × (t.stream.sent ≡ base ++ m)
Sends m base p next (err would_block t) = (t.measurement_state ≡ p) × IsSending m base t
Sends m base p next (err e t) = (k : ℕ) × (t.stream.sent ≡ base ++ take k m)
Sends m base p next (panic t) = ⊥

module _ (z : ZeroWrite) (m base : Bytes) (s : TestState) (k : ℕ → TestState → Outcome TestState)
    (Q : Outcome TestState → Type 0) where
  abbrev at_cursor : Cursor → TestState
  at_cursor c = record s { stream = c.stream; write_pos = c.pos }

  finish :
      (o : Outcome Cursor)
      → z ≢ is_zero
      → IsSending m base s
      → take (length m) s.write_buffer ≡ m
      → ((n : ℕ) (c : Cursor)
          → c.stream.sent ≡ base ++ m
          → Kept s.stream c.stream
          → Q (k n (at_cursor c)))
      → ((e : ErrorKind) (c : Cursor) → IsSending m base (at_cursor c) → Q (err e (at_cursor c)))
      → Wrote z s.write_buffer (length m) (record { stream = s.stream; pos = s.write_pos }) o
      → Kept s.stream (final o).stream
      → Q (then_written s o k)
  unfolding then_written
  finish (ok n c) nz h l done stay w kept =
      done n c
        (ground (arith, sent_upto m base s.write_buffer s.write_pos c.pos, take_all m, w.ends)) kept
  finish (err e c) nz h l done stay w kept = stay e c (record {
    within = w.to;
    fits = h.fits;
    sent = ground (arith, sent_upto m base s.write_buffer s.write_pos c.pos);
    loaded = λ _. l;
  })
  finish (panic c) nz h l done stay w kept = absurd w.ends

  -- The handler's case of success, with all bytes sent, and its case of an error, with some.
  pub write_to-Sends :
      z ≢ is_zero
      → IsSending m base s
      → take (length m) s.write_buffer ≡ m
      → ((n : ℕ) (c : Cursor)
          → c.stream.sent ≡ base ++ m
          → Kept s.stream c.stream
          → Q (k n (at_cursor c)))
      → ((e : ErrorKind) (c : Cursor) → IsSending m base (at_cursor c) → Q (err e (at_cursor c)))
      → Q (write_to z s.write_buffer (length m) s k)
  write_to-Sends nz h l done stay =
      finish _ nz h l done stay
        (write_loop-Wrote z s.write_buffer (length m) _ s.stream.writes h.within h.fits)
        (write_loop-Kept z _ _ s.stream.writes _)
