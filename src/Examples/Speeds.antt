-- ===== src/Examples/Speeds.antt =====
-- The theorems on the calculator at concrete samples, with the integers in place of floating-point
-- numbers.
use nettest.Common.{ℕ, ◌+◌, ◌-◌, ◌*◌, ◌/◌, [], ◌∷◌, List, ◌≡◌, arith}
use nettest.Client.Calculator.{Float, Sample, interpolate_bytes_at_time}
use nettest.Client.Calculator.Interpolation.{Place, bytes_at, interpolate_bytes_at_time-bytes_at}

abbrev whole : Float
whole = record {
  F = ℕ;
  of_u64 = λ n. n;
  add = λ a b. a + b;
  sub = λ a b. a - b;
  mul = λ a b. a * b;
  div = λ a b. a / b;
}

abbrev samples : List Sample
samples = (20, 200) ∷ (30, 300) ∷ []

interpolate_bytes_at_time-bytes_at_example :
    (w : Place 20 ((10, 100) ∷ samples)) × (interpolate_bytes_at_time whole ((10, 100) ∷ samples) 20
      ≡ bytes_at whole 20 ((10, 100) ∷ samples) w)
interpolate_bytes_at_time-bytes_at_example =
    interpolate_bytes_at_time-bytes_at whole 20 (10, 100) samples (ground arith)
