-- ===== src/Text/Split.antt =====
-- `split_once`, `trim_matches`, a table of words, and the parsers of smaller integers and of `bool`,
-- as the standard library has them.
pub mod Laws
use nettest.Common.{
  ℕ, Bool, true, false, List, [], ◌∷◌, ◌==◌, leb, if◌then◌else◌, Option, none, some, Bytes, codes,
  bytes_eq, ◌^◌, ◌-◌,
}
use nettest.Text.{parse_u64}

-- `str::trim_start_matches` and `str::trim_end_matches` with one character.
unfoldable pub trim_start_matches : ℕ → Bytes → Bytes
trim_start_matches k [] = []
trim_start_matches k (c ∷ s) = let rest = trim_start_matches k s in if c == k then rest else c ∷ s

unfoldable pub trim_end_matches : ℕ → Bytes → Bytes
trim_end_matches k [] = []
trim_end_matches k (c ∷ s) = elim (trim_end_matches k s) [
  | [] ↦ if c == k then [] else c ∷ []
  | d ∷ r ↦ c ∷ d ∷ r
]

-- `str::trim_matches`.
abbrev pub trim_matches : ℕ → Bytes → Bytes
trim_matches k s = trim_end_matches k (trim_start_matches k s)

-- `str::split_once` with one character: the text before its first occurrence and behind it.
abbrev onto_front : ℕ → Option (Bytes × Bytes) → Option (Bytes × Bytes)
onto_front c none = none
onto_front c (some (a, b)) = some (c ∷ a, b)

unfoldable pub split_once : ℕ → Bytes → Option (Bytes × Bytes)
split_once k [] = none
split_once k (c ∷ s) =
    let later = onto_front c (split_once k s) in if c == k then some ([], s) else later

-- The arms of a `match` on a text, with the last arm in front.
unfoldable pub match_text {ℓ} : {A : Type ℓ} → A → List (Bytes × A) → Bytes → A
match_text a [] s = a
match_text a ((t, b) ∷ arms) s = let rest = match_text a arms s in if bytes_eq s t then b else rest

-- `parse::<u8>()`, `parse::<u16>()`, `parse::<u32>()`: as `parse::<u64>()`, with a smaller bound.
abbrev within : ℕ → Option ℕ → Option ℕ
within bound none = none
within bound (some n) = if leb n bound then some n else none

unfoldable pub parse_upto : ℕ → Bytes → Option ℕ
unfolding parse_u64
parse_upto bound s = within bound (parse_u64 s)

abbrev pub max_u16 : ℕ
max_u16 = 2 ^ 16 - 1

abbrev pub max_u32 : ℕ
max_u32 = 2 ^ 32 - 1

-- `parse::<bool>()`.
unfoldable pub parse_bool : Bytes → Option Bool
parse_bool s =
    if bytes_eq s (codes "true")
    then some true
    else if bytes_eq s (codes "false")
    then some false
    else none
