-- ===== src/Client/Calculator.antt =====
-- The speed of a test from the samples of its threads (src/client/calculator.rs).
--
-- Floating-point numbers are a parameter: a type with the operations that the code uses.
pub mod Interpolation
use nettest.Common.{
  ℕ, zero, suc, ◌+◌, ◌-◌, ◌%◌, ◌^◌, Bool, true, false, List, [], ◌∷◌, ◌==◌, leb, ltb, min,
  if◌then◌else◌, Option, none, some, length, get_elem?,
}

-- `f64`: the conversion of a `u64`, the constants by their values, and arithmetic.
pub record Float : Type 1 where
  pub F : Type 0
  pub of_u64 : ℕ → F
  pub add : F → F → F
  pub sub : F → F → F
  pub mul : F → F → F
  pub div : F → F → F

-- A sample: the time in nanoseconds, and the bytes until then.
abbrev pub Sample : Type 0
Sample = ℕ × ℕ

-- `client::Measurement`, as far as the calculator reads it: whether the thread failed, and its samples.
pub record Measurement : Type 0 where
  pub failed : Bool
  pub measurements : List Sample

abbrev pub u64_sum : ℕ → ℕ → ℕ
u64_sum a b = (a + b) % 2 ^ 64

-- A difference of `u64` in a release build, which wraps below zero.
abbrev pub u64_difference : ℕ → ℕ → ℕ
u64_difference a b = (a + 2 ^ 64 - b) % 2 ^ 64

abbrev pub skip_time_ns : ℕ
skip_time_ns = 1000000000

-- `m.first()` and `m.last()`, by their times.
abbrev pub first_time : List Sample → Option ℕ
first_time [] = none
first_time ((t, b) ∷ ms) = some t

abbrev pub last_sample : Sample → List Sample → Sample
last_sample p [] = p
last_sample p (q ∷ ms) = last_sample q ms

abbrev pub last_time : List Sample → Option ℕ
last_time [] = none
last_time (p ∷ ms) = let (t, b) = last_sample p ms in some t

-- `filter_map(…).min().unwrap_or(0)`.
abbrev pub least : Option ℕ → Option ℕ → Option ℕ
least none o = o
least (some a) none = some a
least (some a) (some b) = some (min a b)

unfoldable pub least_of : (List Sample → Option ℕ) → List (List Sample) → Option ℕ
least_of time [] = none
least_of time (m ∷ ms) = least (time m) (least_of time ms)

abbrev pub or_zero : Option ℕ → ℕ
or_zero none = 0
or_zero (some n) = n

-- The loop that looks for the samples around a time.
unfoldable pub around : ℕ → List Sample → Option Sample → Option Sample × Option Sample
around target [] before = (before, none)
around target ((t, b) ∷ ms) before =
    let here : Option Sample = if leb t target then some (t, b) else before in
    let rest = around target ms here in if leb target t then (here, some (t, b)) else rest

-- `enumerate` and the `break` at the first sample that is late enough.
unfoldable pub first_late : ℕ → List Sample → Option ℕ
first_late target [] = none
first_late target ((t, b) ∷ ms) = elim (leb target t) [
  | true ↦ some 0
  | false ↦ elim (first_late target ms) [ none ↦ none | some j ↦ some (suc j) ]
]

-- The samples of the threads that did not fail.
unfoldable pub thread_measurements : List Measurement → List (List Sample)
thread_measurements [] = []
thread_measurements (s ∷ ss) =
    let rest = thread_measurements ss in if s.failed then rest else s.measurements ∷ rest

module _ (float : Float) where
  open float use {F, of_u64, add, sub, mul, div}

  -- The line through two samples, at a time.
  abbrev pub line_at : Sample → Sample → ℕ → F
  line_at (t0, b0) (t1, b1) target = add (of_u64 b0) (
      mul (div (of_u64 (u64_difference target t0)) (of_u64 (u64_difference t1 t0)))
        (of_u64 (u64_difference b1 b0)))

  abbrev pub interpolated : ℕ → Option Sample × Option Sample → F
  interpolated target (none, none) = of_u64 0
  interpolated target (some (t0, b0), none) = of_u64 b0
  interpolated target (none, some (t1, b1)) = of_u64 b1
  interpolated target (some (t0, b0), some (t1, b1)) =
      if ltb t0 t1 then line_at (t0, b0) (t1, b1) target else of_u64 0

  unfoldable pub interpolate_bytes_at_time : List Sample → ℕ → F
  interpolate_bytes_at_time ms target = interpolated target (around target ms none)

  -- The bytes of one thread at the end, by the index that was found.
  abbrev between_samples : Sample → Sample → ℕ → F
  between_samples (t0, b0) (t1, b1) target =
      if ltb t0 t1 then line_at (t0, b0) (t1, b1) target else of_u64 b1

  -- `l_k` is in range, and so is the index before it.
  abbrev pair_at : ℕ → Option Sample → Option Sample → F
  pair_at target (some p) (some q) = between_samples p q target
  pair_at target _ _ = of_u64 0

  unfoldable pub bytes_at_end : List Sample → ℕ → F
  bytes_at_end ms target = elim (first_late target ms) [
    | some zero ↦ interpolate_bytes_at_time ms target
    | some (suc j) ↦ pair_at target (get_elem? ms j) (get_elem? ms (suc j))
    | none ↦ elim (length ms - 1) [
      | zero ↦ interpolate_bytes_at_time ms target
      | suc j ↦ pair_at target (get_elem? ms j) (get_elem? ms (suc j))
    ]
  ]

  -- The loop over the threads.
  abbrev thread_bytes : ℕ → ℕ → List Sample → F → F
  thread_bytes begin target [] total = total
  thread_bytes begin target (p ∷ ms) total =
      add total (sub (bytes_at_end (p ∷ ms) target) (interpolate_bytes_at_time (p ∷ ms) begin))

  unfoldable pub total_bytes : ℕ → ℕ → List (List Sample) → F → F
  total_bytes begin target [] total = total
  total_bytes begin target (m ∷ ms) total =
      total_bytes begin target ms (thread_bytes begin target m total)

  -- Bits, gigabits and megabits per second.
  abbrev pub no_speed : F × F × F
  no_speed = (of_u64 0, of_u64 0, of_u64 0)

  abbrev pub speeds : F → ℕ → F × F × F
  speeds total t_star =
      let bps = div (mul total (of_u64 8)) (div (of_u64 t_star) (of_u64 1000000000)) in
      (bps, div bps (of_u64 1000000000), div bps (of_u64 1000000))

  abbrev pub from_times : ℕ → ℕ → List (List Sample) → F × F × F
  from_times start t_star ms =
      let begin = u64_sum start skip_time_ns in
      speeds (total_bytes begin (u64_sum begin t_star) ms (of_u64 0)) t_star

  abbrev pub with_last : ℕ → List (List Sample) → F × F × F
  with_last t_last ms =
      let t_star = u64_difference t_last skip_time_ns in
      if t_last == 0
      then no_speed
      else if t_star == 0
      then no_speed
      else from_times (or_zero (least_of first_time ms)) t_star ms

  unfoldable pub calculate_speed_from_measurements : List (List Sample) → F × F × F
  calculate_speed_from_measurements [] = no_speed
  calculate_speed_from_measurements (m ∷ ms) =
      with_last (or_zero (least_of last_time (m ∷ ms))) (m ∷ ms)

  unfoldable pub calculate_download_speed : List Measurement → F × F × F
  calculate_download_speed ss = calculate_speed_from_measurements (thread_measurements ss)
