-- ===== src/Common/Ascii.antt =====
-- Text as the list of its bytes. The model's texts are ASCII: a byte is a character.
use Prim.Native.Nat.{ℕ, ◌-◌}
use Prim.Native.Char.{code}
use Prim.Native.String.{String}
use mathlib.Core.Bool.{Bool, true, false, ◌&&◌, ◌||◌}
use mathlib.Core.List.{List, [], ◌∷◌}
use nettest.Common.Tests.{◌==◌, leb}
use nettest.Common.Lists.{length, slice}

abbrev pub Bytes : Type 0
Bytes = List ℕ

abbrev pub codes : String → Bytes
codes String.[] = []
codes (String.◌∷◌ c s) = code c ∷ codes s

-- Equality of two byte slices.
abbrev pub bytes_eq : Bytes → Bytes → Bool
bytes_eq [] [] = true
bytes_eq [] (d ∷ t) = false
bytes_eq (c ∷ s) [] = false
bytes_eq (c ∷ s) (d ∷ t) = c == d && bytes_eq s t

-- `pos >= end.len() && buf[pos - end.len()..pos] == end`.
abbrev pub ends_at : Bytes → Bytes → ℕ → Bool
ends_at end buf pos = leb (length end) pos && bytes_eq (slice (pos - length end) pos buf) end

-- `str::starts_with` and `str::contains`.
abbrev pub starts_with : Bytes → Bytes → Bool
starts_with [] s = true
starts_with (p ∷ ps) [] = false
starts_with (p ∷ ps) (c ∷ s) = p == c && starts_with ps s

abbrev pub contains : Bytes → Bytes → Bool
contains pat [] = starts_with pat []
contains pat (c ∷ s) = starts_with pat (c ∷ s) || contains pat s
