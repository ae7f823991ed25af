-- ===== src/Text/Lines.antt =====
-- Splitting a text of one line.
use nettest.Common.{ℕ, [], ◌∷◌, ◌++◌, Bytes, All, ◌≡◌, ◌≢◌, refl, arith, append_assoc, append-nil}
use nettest.Text.{lines_from, split_terminator}
use nettest.Text.Decimal.{IsDigit}

abbrev pub IsInLine : ℕ → Type 0
IsInLine c = c ≢ b'\n'

pub All-append : (s t : Bytes) → All IsInLine s → All IsInLine t → All IsInLine (s ++ t)
All-append [] t h k = k
All-append (c ∷ s) t h k = (h.0, All-append s t h.1 k)

pub digits-IsInLine : (s : Bytes) → All IsDigit s → All IsInLine s
digits-IsInLine [] h = tt
digits-IsInLine (c ∷ s) h = (omega arith, digits-IsInLine s h.1)

lines_from-append :
    (s rest cur : Bytes)
    → All IsInLine s
    → lines_from cur (s ++ b'\n' ∷ rest) ≡ (cur ++ s) ∷ lines_from [] rest
unfolding lines_from
lines_from-append [] rest cur h = rw append-nil refl
lines_from-append (c ∷ s) rest cur h =
    ground (arith, lines_from-append s rest (cur ++ c ∷ []), append_assoc cur (c ∷ []) s)

-- A line and a newline, and the lines behind it.
pub split_terminator-append :
    (s rest : Bytes)
    → All IsInLine s
    → split_terminator (s ++ b'\n' ∷ rest) ≡ s ∷ split_terminator rest
unfolding split_terminator
split_terminator-append s rest h = lines_from-append s rest [] h

pub split_terminator-line :
    (s : Bytes) → All IsInLine s → split_terminator (s ++ b'\n' ∷ []) ≡ s ∷ []
unfolding split_terminator lines_from
split_terminator-line s h = lines_from-append s [] [] h

pub split_terminator_nil : split_terminator [] ≡ []
unfolding split_terminator lines_from
split_terminator_nil = refl
