-- ===== src/Text/Words.antt =====
-- Splitting a line that was put together from words.
use nettest.Common.{
  ℕ, true, false, [], ◌∷◌, ◌++◌, Bytes, All, ◌≡◌, ◌≢◌, refl, arith, append_assoc, append-nil, ◌∙◌,
}
use nettest.Text.{is_space, words_from, words, trim, trim_start, trim_end}
use nettest.Text.Decimal.{IsDigit}

words_from-trim_start : (s : Bytes) → words_from [] (trim_start s) ≡ words_from [] s
unfolding words_from trim_start
words_from-trim_start [] = refl
words_from-trim_start (c ∷ s) = ground (arith, words_from-trim_start s)

words_from-trim_end : (s cur : Bytes) → words_from cur (trim_end s) ≡ words_from cur s
unfolding words_from trim_end
words_from-trim_end [] cur = refl
words_from-trim_end (c ∷ s) cur =
    ground (arith, words_from-trim_end s [], words_from-trim_end s (cur ++ c ∷ []))

-- `trim` before `split_whitespace` changes nothing.
pub words-trim : (s : Bytes) → words (trim s) ≡ words s
unfolding words trim
words-trim s = words_from-trim_end (trim_start s) [] ∙ words_from-trim_start s

abbrev pub IsInWord : ℕ → Type 0
IsInWord c = is_space c ≡ false

pub digits-IsInWord : (s : Bytes) → All IsDigit s → All IsInWord s
unfolding is_space
digits-IsInWord [] h = tt
digits-IsInWord (c ∷ s) h = (ground arith, digits-IsInWord s h.1)

words_from-append :
    (p rest cur : Bytes) → All IsInWord p → words_from cur (p ++ rest) ≡ words_from (cur ++ p) rest
unfolding words_from
words_from-append [] rest cur h = rw append-nil
words_from-append (c ∷ p) rest cur h =
    ground (arith, words_from-append p rest (cur ++ c ∷ []), append_assoc cur (c ∷ []) p)

-- A word, a space, and the words behind it.
pub words-word :
    (p rest : Bytes) (c : ℕ)
    → p ≢ []
    → All IsInWord p
    → is_space c ≡ true
    → words (p ++ c ∷ rest) ≡ p ∷ words rest
unfolding words words_from
words-word [] rest c n h e = absurd (n refl)
words-word (d ∷ p) rest c n h e = ground (arith, words_from-append (d ∷ p) (c ∷ rest) [])

-- Digits and then a space or a newline: a word, and the words behind it.
pub words-digits :
    (p rest : Bytes) (c : ℕ)
    → p ≢ []
    → All IsDigit p
    → is_space c ≡ true
    → words (p ++ c ∷ rest) ≡ p ∷ words rest
words-digits p rest c n h e = words-word p rest c n (digits-IsInWord p h) e

pub words_space : (rest : Bytes) (c : ℕ) → is_space c ≡ true → words (c ∷ rest) ≡ words rest
unfolding words words_from
words_space rest c e = ground arith

pub words-digits_end : (p : Bytes) → p ≢ [] → All IsDigit p → words p ≡ p ∷ []
unfolding words words_from
words-digits_end [] n h = absurd (n refl)
words-digits_end (d ∷ p) n h =
    ground (arith, append-nil p, words_from-append (d ∷ p) [] [], digits-IsInWord (d ∷ p) h)

pub words_end : (c : ℕ) → is_space c ≡ true → words (c ∷ []) ≡ []
unfolding words words_from
words_end c e = ground arith

trim_end-append : (p : Bytes) (c : ℕ) → is_space c ≡ false → trim_end (p ++ c ∷ []) ≡ p ++ c ∷ []
unfolding trim_end
trim_end-append [] c e = ground arith
trim_end-append (d ∷ []) c e = ground arith
trim_end-append (d ∷ b ∷ p) c e = ground (arith, trim_end-append (b ∷ p) c e)

trim_end-word : (p : Bytes) → All IsInWord p → trim_end p ≡ p
unfolding trim_end
trim_end-word [] h = refl
trim_end-word (c ∷ p) h = ground (arith, trim_end-word p h.1)

trim_end-space :
    (p : Bytes) (c : ℕ) → All IsInWord p → is_space c ≡ true → trim_end (p ++ c ∷ []) ≡ p
unfolding trim_end
trim_end-space [] c h e = ground arith
trim_end-space (d ∷ p) c h e = ground (arith, trim_end-space p c h.1 e)

-- A text that begins and ends with no space is left alone.
pub trim-ends :
    (b : ℕ) (p : Bytes) (c : ℕ)
    → is_space b ≡ false
    → is_space c ≡ false
    → trim (b ∷ (p ++ c ∷ [])) ≡ b ∷ (p ++ c ∷ [])
unfolding trim trim_start
trim-ends b p c e k = ground (arith, trim_end-append (b ∷ p) c k)

-- A word with a space behind it.
pub trim-word_space :
    (p : Bytes) (c : ℕ) → All IsInWord p → is_space c ≡ true → trim (p ++ c ∷ []) ≡ p
unfolding trim trim_start trim_end
trim-word_space [] c h e = ground arith
trim-word_space (d ∷ p) c h e = ground (arith, trim_end-space (d ∷ p) c h e)

pub trim_space : (c : ℕ) (s : Bytes) → is_space c ≡ true → trim (c ∷ s) ≡ trim s
unfolding trim trim_start
trim_space c s e = ground arith

-- A first byte that is no space stays the first one.
pub trim-cons : (b : ℕ) (s : Bytes) → is_space b ≡ false → (r : Bytes) × (trim (b ∷ s) ≡ b ∷ r)
unfolding trim trim_start trim_end
trim-cons b s e = (trim_end s, ground arith)

pub trim_nil : trim [] ≡ []
unfolding trim trim_start trim_end
trim_nil = refl
