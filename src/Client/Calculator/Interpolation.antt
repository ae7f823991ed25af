-- ===== src/Client/Calculator/Interpolation.antt =====
-- The interpolation between samples (src/client/calculator.rs).
use nettest.Common.{
  inl, inr, ◌⊎◌, ℕ, ◌+◌, ◌-◌, ◌^◌, ◌<◌, true, false, List, [], ◌∷◌, ◌++◌, Option, none, some,
  if◌then◌else◌, All, ◌≡◌, refl, arith, ◌∙◌, ap, leb,
}
use nettest.Client.Calculator.{
  Float, Sample, u64_difference, around, line_at, interpolate_bytes_at_time,
}

-- Samples before a time.
abbrev pub AllBefore : ℕ → List Sample → Type 0
AllBefore t ms = All (λ p. p.0 < t) ms

abbrev last_or : Option Sample → List Sample → Option Sample
last_or o [] = o
last_or o (p ∷ ms) = last_or (some p) ms

around-append :
    (target : ℕ) (xs ms : List Sample) (o : Option Sample)
    → AllBefore target xs
    → around target (xs ++ ms) o ≡ around target ms (last_or o xs)
unfolding around
around-append target [] ms o h = refl
around-append target ((t, b) ∷ xs) ms o h =
    let early : leb t target ≡ true = ground (arith, h.0) in
    let not_late : leb target t ≡ false = ground (arith, h.0) in
    rw (early, not_late) (around-append target xs ms (some (t, b)) h.1)

-- Where a time stands among samples: before them, between two neighbours, behind them, or at one,
-- the samples in front being earlier.
pub data Place (target : ℕ) (ms : List Sample) : Type 0 where
  before : (q : Sample) (ys : List Sample) → ms ≡ q ∷ ys → target < q.0 → Place target ms
  between :
      (xs : List Sample) (p q : Sample) (ys : List Sample)
      → ms ≡ xs ++ p ∷ q ∷ ys
      → AllBefore target xs
      → p.0 < target
      → target < q.0
      → Place target ms
  behind :
      (xs : List Sample) (p : Sample)
      → ms ≡ xs ++ p ∷ []
      → AllBefore target xs
      → p.0 < target
      → Place target ms
  at_sample :
      (xs : List Sample) (p : Sample) (ys : List Sample)
      → ms ≡ xs ++ p ∷ ys
      → AllBefore target xs
      → p.0 ≡ target
      → Place target ms

prepend :
    (target : ℕ) (o : Sample) (ms : List Sample)
    → o.0 < target
    → Place target ms
    → Place target (o ∷ ms)
prepend target o ms h (before q ys e lt) = between [] o q ys (ap (λ r. o ∷ r) e) tt h lt
prepend target o ms h (between xs p q ys e k l lt) =
    between (o ∷ xs) p q ys (ap (λ r. o ∷ r) e) (h, k) l lt
prepend target o ms h (behind xs p e k l) = behind (o ∷ xs) p (ap (λ r. o ∷ r) e) (h, k) l
prepend target o ms h (at_sample xs p ys e k l) =
    at_sample (o ∷ xs) p ys (ap (λ r. o ∷ r) e) (h, k) l

order : (a b : ℕ) → (a < b) ⊎ ((a ≡ b) ⊎ (b < a))
order a b = ground arith

place : (target : ℕ) (p : Sample) (ms : List Sample) → Place target (p ∷ ms)
place target p [] = elim (order p.0 target) [
  | inl lt ↦ behind [] p refl tt lt
  | inr (inl e) ↦ at_sample [] p [] refl tt e
  | inr (inr gt) ↦ before p [] refl gt
]
place target p (q ∷ ms) = elim (order p.0 target) [
  | inl lt ↦ prepend target p (q ∷ ms) lt (place target q ms)
  | inr (inl e) ↦ at_sample [] p (q ∷ ms) refl tt e
  | inr (inr gt) ↦ before p (q ∷ ms) refl gt
]

-- A time or a count of bytes as the code has it, and samples of such.
abbrev pub IsU64 : ℕ → Type 0
IsU64 n = n < 2 ^ 64

abbrev pub AreU64 : List Sample → Type 0
AreU64 ms = All (λ p. IsU64 p.0 × IsU64 p.1) ms

All-behind : (xs ys : List Sample) → AreU64 (xs ++ ys) → AreU64 ys
All-behind [] ys h = h
All-behind (x ∷ xs) ys h = All-behind xs ys h.1

-- The bytes between two samples: their difference, which wraps if they become fewer.
abbrev pub rise : ℕ → ℕ → ℕ
rise b0 b1 = if leb b0 b1 then b1 - b0 else b1 + 2 ^ 64 - b0

rise_lem : (b0 b1 : ℕ) → IsU64 b0 → IsU64 b1 → u64_difference b1 b0 ≡ rise b0 b1
rise_lem b0 b1 h k = ground arith

later_lem : (a b : ℕ) → a < b → IsU64 b → u64_difference b a ≡ b - a
later_lem a b h k = omega arith

module _ (float : Float) where
  open float use {F, of_u64, add, mul, div}

  -- The line through two samples at a time between them: the bytes of the first, and the share of the
  -- bytes between the two that the time has of the time between the two.
  abbrev pub line_through : Sample → Sample → ℕ → F
  line_through (t0, b0) (t1, b1) target =
      add (of_u64 b0) (mul (div (of_u64 (target - t0)) (of_u64 (t1 - t0))) (of_u64 (rise b0 b1)))

  line_at-line_through :
      (p q : Sample) (target : ℕ)
      → IsU64 p.1
      → IsU64 q.0
      → IsU64 q.1
      → p.0 < target
      → target < q.0
      → line_at float p q target ≡ line_through p q target
  line_at-line_through (t0, b0) (t1, b1) target h k l lt gt =
      let first : ℕ → F = λ d.
        add (of_u64 b0)
          (mul (div (of_u64 d) (of_u64 (u64_difference t1 t0))) (of_u64 (u64_difference b1 b0))) in
      let second : ℕ → F = λ d.
        add (of_u64 b0)
          (mul (div (of_u64 (target - t0)) (of_u64 d)) (of_u64 (u64_difference b1 b0))) in
      let third : ℕ → F =
        λ d. add (of_u64 b0) (mul (div (of_u64 (target - t0)) (of_u64 (t1 - t0))) (of_u64 d)) in
      ap first (later_lem t0 target lt (omega (arith, k, gt)))
      ∙ (ap second (later_lem t0 t1 (omega (arith, lt, gt)) k) ∙ ap third (rise_lem b0 b1 h l))

  -- What the code gives there: at a sample, nothing.
  abbrev pub bytes_at : (target : ℕ) (ms : List Sample) → Place target ms → F
  bytes_at target ms (before q ys e lt) = of_u64 q.1
  bytes_at target ms (between xs p q ys e k l lt) = line_through p q target
  bytes_at target ms (behind xs p e k l) = of_u64 p.1
  bytes_at target ms (at_sample xs p ys e k l) = of_u64 0

  interpolates :
      (target : ℕ) (ms : List Sample) (w : Place target ms)
      → AreU64 ms
      → interpolate_bytes_at_time float ms target ≡ bytes_at target ms w
  unfolding interpolate_bytes_at_time around
  interpolates target ms (before (t, b) ys e lt) u64s = rw e (ground arith)
  interpolates target ms (between xs (t, b) (u, c) ys e k l lt) u64s =
      let ends = All-behind xs ((t, b) ∷ (u, c) ∷ ys) (rw e at u64s) in
      let line = line_at-line_through (t, b) (u, c) target ends.0.1 ends.1.0.0 ends.1.0.1 l lt in
      rw e (rw (around-append target xs ((t, b) ∷ (u, c) ∷ ys) none k) (ground arith) ∙ line)
  interpolates target ms (behind xs (t, b) e k l) u64s =
      rw e (rw (around-append target xs ((t, b) ∷ []) none k) (ground arith))
  interpolates target ms (at_sample xs (t, b) ys e k l) u64s =
      rw e (rw (around-append target xs ((t, b) ∷ ys) none k) (ground arith))

  -- Every time has a place among the samples of a thread, which are pairs of 64-bit numbers. Between
  -- two neighbours the code gives the bytes of the first and, of the bytes that the second has more,
  -- the share that the time has of the time between them, where bytes that become fewer wrap around;
  -- before all samples it gives the first one's bytes and behind all the last one's, but at the time
  -- of a sample it gives zero.
  pub interpolate_bytes_at_time-bytes_at :
      (target : ℕ) (p : Sample) (ms : List Sample)
      → AreU64 (p ∷ ms)
      → (w : Place target (p ∷ ms)) × (interpolate_bytes_at_time float (p ∷ ms) target
          ≡ bytes_at target (p ∷ ms) w)
  interpolate_bytes_at_time-bytes_at target p ms h =
      (place target p ms, interpolates target (p ∷ ms) (place target p ms) h)
