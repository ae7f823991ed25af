-- ===== src/Text/Split/Laws.antt =====
-- Lemmas on splitting a text at a character and on taking one off its ends.
use nettest.Common.{ℕ, ◌≤◌, [], ◌∷◌, ◌++◌, some, none, Bytes, All, ◌≡◌, ◌≢◌, refl, arith, ◌<◌}
use nettest.Text.{max_u64, format_u64}
use nettest.Text.Decimal.{IsDigit, parse_u64-format_u64}
use nettest.Text.Split.{trim_start_matches, trim_end_matches, trim_matches, split_once, parse_upto}

-- No byte of the text is `k`.
abbrev pub Without : ℕ → Bytes → Type 0
Without k s = All (λ c. c ≢ k) s

pub split_once-append :
    (k : ℕ) (p rest : Bytes) → Without k p → split_once k (p ++ k ∷ rest) ≡ some (p, rest)
unfolding split_once
split_once-append k [] rest h = ground arith
split_once-append k (c ∷ p) rest h = ground (arith, split_once-append k p rest h.1)

pub split_once-none : (k : ℕ) (p : Bytes) → Without k p → split_once k p ≡ none
unfolding split_once
split_once-none k [] h = refl
split_once-none k (c ∷ p) h = ground (arith, split_once-none k p h.1)

pub digits-Without : (k : ℕ) (s : Bytes) → b'9' < k → All IsDigit s → Without k s
digits-Without k [] lt h = tt
digits-Without k (c ∷ s) lt h = (omega arith, digits-Without k s lt h.1)

trim_end_matches-append : (k : ℕ) (s : Bytes) → Without k s → trim_end_matches k (s ++ k ∷ []) ≡ s
unfolding trim_end_matches
trim_end_matches-append k [] h = ground arith
trim_end_matches-append k (c ∷ []) h = ground arith
trim_end_matches-append k (c ∷ d ∷ s) h = ground (arith, trim_end_matches-append k (d ∷ s) h.1)

-- The quotes around a text that holds none are taken off.
pub trim_matches-quoted : (k : ℕ) (s : Bytes) → Without k s → trim_matches k (k ∷ (s ++ k ∷ [])) ≡ s
unfolding trim_start_matches trim_end_matches
trim_matches-quoted k [] h = ground arith
trim_matches-quoted k (c ∷ s) h = ground (arith, trim_end_matches-append k (c ∷ s) h)

trim_end_matches-Without : (k : ℕ) (s : Bytes) → Without k s → trim_end_matches k s ≡ s
unfolding trim_end_matches
trim_end_matches-Without k [] h = refl
trim_end_matches-Without k (c ∷ []) h = ground arith
trim_end_matches-Without k (c ∷ d ∷ s) h = ground (arith, trim_end_matches-Without k (d ∷ s) h.1)

pub trim_matches-Without : (k : ℕ) (s : Bytes) → Without k s → trim_matches k s ≡ s
unfolding trim_start_matches trim_end_matches
trim_matches-Without k [] h = refl
trim_matches-Without k (c ∷ s) h = ground (arith, trim_end_matches-Without k (c ∷ s) h)

-- The parser with a bound undoes the print of a number within it.
pub parse_upto-format_u64 :
    (bound n : ℕ) → n ≤ bound → n ≤ max_u64 → parse_upto bound (format_u64 n) ≡ some n
unfolding parse_upto
parse_upto-format_u64 bound n h k = rw (parse_u64-format_u64 n k) (ground arith)

pub parse_upto-le : (bound n : ℕ) (s : Bytes) → parse_upto bound s ≡ some n → n ≤ bound
unfolding parse_upto
parse_upto-le bound n s e = ground arith
