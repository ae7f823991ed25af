-- ===== src/Text.antt =====
-- Text as the standard library handles it: `split_whitespace`, `trim`, `split_terminator('\n')`,
-- the parser of unsigned integers and the decimal print that `format!` uses.
pub mod Words
pub mod Lines
pub mod Decimal
pub mod Split
use nettest.Common.{
  ℕ, zero, suc, ◌+◌, ◌-◌, ◌*◌, ◌/◌, ◌%◌, ◌^◌, ◌<◌, Bool, true, false, ◌&&◌, ◌||◌, List, [], ◌∷◌,
  ◌++◌, ◌==◌, leb, ltb, if◌then◌else◌, Option, none, some, Bytes,
}

-- `char::is_whitespace` on ASCII.
unfoldable pub is_space : ℕ → Bool
is_space c = c == 32 || (leb 9 c && leb c 13)

abbrev pub flush_word : Bytes → List Bytes → List Bytes
flush_word [] ws = ws
flush_word (c ∷ cs) ws = (c ∷ cs) ∷ ws

pub words_from : Bytes → Bytes → List Bytes
words_from cur [] = flush_word cur []
words_from cur (c ∷ s) = elim (is_space c) [
  | true ↦ flush_word cur (words_from [] s)
  | false ↦ words_from (cur ++ c ∷ []) s
]

-- `str::split_whitespace`.
unfoldable pub words : Bytes → List Bytes
unfolding words_from is_space
words = words_from []

-- `str::trim`.
trim_start : Bytes → Bytes
trim_start [] = []
trim_start (c ∷ s) = let rest = trim_start s in if is_space c then rest else c ∷ s

abbrev is_empty : Bytes → Bool
is_empty [] = true
is_empty (c ∷ s) = false

trim_end : Bytes → Bytes
trim_end [] = []
trim_end (c ∷ s) = let r = trim_end s in if is_space c && is_empty r then [] else c ∷ r

unfoldable pub trim : Bytes → Bytes
unfolding trim_start trim_end is_space
trim s = trim_end (trim_start s)

-- `split_terminator('\n')`: the lines, without an empty one behind the last newline.
lines_from : Bytes → Bytes → List Bytes
lines_from cur [] = flush_word cur []
lines_from cur (c ∷ s) = elim (c == b'\n') [
  | true ↦ cur ∷ lines_from [] s
  | false ↦ lines_from (cur ++ c ∷ []) s
]

unfoldable pub split_terminator : Bytes → List Bytes
unfolding lines_from
split_terminator = lines_from []

-- `parse::<u64>()`, and `parse::<usize>()` on a 64-bit machine: an optional `+` and one or more
-- digits whose value fits.
abbrev pub max_u64 : ℕ
max_u64 = 2 ^ 64 - 1

pub scan : Bytes → ℕ → Option ℕ
scan [] n = some n
scan (c ∷ s) n =
    let m = n * 10 + (c - b'0') in
    let rest = scan s m in if leb b'0' c && (leb c b'9' && leb m max_u64) then rest else none

unfoldable pub parse_u64 : Bytes → Option ℕ
unfolding scan
parse_u64 [] = none
parse_u64 (c ∷ []) = scan (c ∷ []) 0
parse_u64 (c ∷ d ∷ s) = if c == b'+' then scan (d ∷ s) 0 else scan (c ∷ d ∷ s) 0

-- The decimal print of a number, last digit first. A u128 has at most 39 digits.
pub digits : ℕ → ℕ → Bytes → Bytes
digits zero n out = out
digits (suc f) n out =
    let front = (b'0' + n % 10) ∷ out in
    let rest = digits f (n / 10) front in if ltb n 10 then front else rest

unfoldable pub format_u64 : ℕ → Bytes
unfolding digits
format_u64 n = digits 40 n []
