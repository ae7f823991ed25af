-- ===== src/Text/Decimal.antt =====
-- The decimal print of a number, and its parser.
use native.Mathlib.Nat.{pow-suc}
use nettest.Common.{
  ℕ, zero, suc, ◌+◌, ◌-◌, ◌*◌, ◌/◌, ◌%◌, ◌^◌, ◌≤◌, ◌<◌, [], ◌∷◌, some, Bytes, All, ◌≡◌, ◌≢◌, refl,
  arith, ◌++◌, none,
}
use nettest.Text.{max_u64, scan, parse_u64, digits, format_u64}

abbrev pub IsDigit : ℕ → Type 0
IsDigit c = (b'0' ≤ c) × (c ≤ b'9')

-- A digit in front is read as such.
scan_digit :
    (q d : ℕ) (out : Bytes)
    → d < 10
    → q * 10 + d ≤ max_u64
    → scan ((b'0' + d) ∷ out) q ≡ scan out (q * 10 + d)
unfolding scan
scan_digit q d out h k = let e : b'0' + d - b'0' ≡ d = omega arith in ground arith

scan-digits :
    (f n : ℕ) (out : Bytes) → n < 10 ^ f → n ≤ max_u64 → scan (digits f n out) 0 ≡ scan out n
unfolding digits
scan-digits zero n out h k = let e : n ≡ 0 = omega arith in rw e
scan-digits (suc f) n out h k = ground (
  arith,
  scan-digits f (n / 10) ((b'0' + n % 10) ∷ out),
  scan_digit (n / 10) (n % 10) out,
  pow-suc 10 f,
  scan_digit 0 (n % 10) out,
)

digits-All : (f n : ℕ) (out : Bytes) → All IsDigit out → All IsDigit (digits f n out)
unfolding digits
digits-All zero n out h = h
digits-All (suc f) n out h = ground (arith, digits-All f (n / 10) ((b'0' + n % 10) ∷ out))

digits-ne-nil : (f n : ℕ) (c : ℕ) (out : Bytes) → digits f n (c ∷ out) ≢ []
unfolding digits
digits-ne-nil zero n c out = λ e. cc
digits-ne-nil (suc f) n c out = ground (arith, digits-ne-nil f (n / 10) (b'0' + n % 10) (c ∷ out))

-- A print holds digits only, and at least one.
pub format_u64-All : (n : ℕ) → All IsDigit (format_u64 n)
unfolding format_u64
format_u64-All n = digits-All 40 n [] tt

pub format_u64-ne-nil : (n : ℕ) → format_u64 n ≢ []
unfolding format_u64
format_u64-ne-nil n = ground (arith, digits-ne-nil 39 (n / 10) (b'0' + n % 10) [])

parse_u64-scan : (s : Bytes) → s ≢ [] → All IsDigit s → parse_u64 s ≡ scan s 0
unfolding parse_u64
parse_u64-scan [] h a = absurd (h refl)
parse_u64-scan (c ∷ []) h a = refl
parse_u64-scan (c ∷ d ∷ s) h a = ground arith

-- The parser undoes the print, for every number that fits a u64.
pub parse_u64-format_u64 : (n : ℕ) → n ≤ max_u64 → parse_u64 (format_u64 n) ≡ some n
unfolding format_u64 scan
parse_u64-format_u64 n h =
    rw (parse_u64-scan (format_u64 n) (format_u64-ne-nil n) (format_u64-All n))
      (scan-digits 40 n [] (omega arith) h)

scan-append : (s : Bytes) (c n : ℕ) → c < b'0' → scan (s ++ c ∷ []) n ≡ none
unfolding scan
scan-append [] c n h = ground arith
scan-append (d ∷ s) c n h = ground (arith, scan-append s c (n * 10 + (d - b'0')) h)

-- Digits with a byte below the digits behind them are no number.
pub parse_u64-append :
    (s : Bytes) (c : ℕ) → s ≢ [] → All IsDigit s → c < b'0' → parse_u64 (s ++ c ∷ []) ≡ none
unfolding parse_u64
parse_u64-append [] c n h k = absurd (n refl)
parse_u64-append (d ∷ []) c n h k = ground (arith, scan-append (d ∷ []) c 0 k)
parse_u64-append (d ∷ e ∷ s) c n h k = ground (arith, scan-append (d ∷ e ∷ s) c 0 k)
