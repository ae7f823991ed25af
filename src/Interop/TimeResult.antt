-- ===== src/Interop/TimeResult.antt =====
-- The server's report of an upload, as the client takes it apart
-- (src/mioserver/handlers/puttimeresult.rs, src/client/handlers/puttimeresult.rs).
use nettest.Common.{
  ℕ, ◌≤◌, ◌≡◌, ◌≢◌, refl, sym, ap, ◌∙◌, List, [], ◌∷◌, ◌++◌, Bytes, codes, All, arith, none, some,
  false, append_assoc, append-nil,
}
use nettest.Text.{words, format_u64, max_u64, is_space}
use nettest.Text.Decimal.{
  IsDigit, format_u64-All, format_u64-ne-nil, parse_u64-format_u64, parse_u64-append,
}
use nettest.Text.Words.{IsInWord, digits-IsInWord, words-word, words-digits_end}
use nettest.Interop.{printed_word, blank, line_end}
use nettest.Server.PutTimeResult.{pair_text, join_pairs, time_result_line}
use nettest.Text.Split.{trim_start_matches, trim_end_matches}
use nettest.Client.PutTimeResult.{split_pairs, parse_pair, parse_pairs, time_result_pairs}

-- A pair without its brackets.
inner : ℕ × ℕ → Bytes
inner (t, b) = format_u64 t ++ (codes " " ++ format_u64 b)

abbrev IsInPair : ℕ → Type 0
IsInPair c = (c ≢ b';') × (c ≢ b')')

All-append : (P : ℕ → Type 0) (s t : Bytes) → All P s → All P t → All P (s ++ t)
All-append P [] t h k = k
All-append P (c ∷ s) t h k = (h.0, All-append P s t h.1 k)

digits-IsInPair : (s : Bytes) → All IsDigit s → All IsInPair s
digits-IsInPair [] h = tt
digits-IsInPair (c ∷ s) h = ((omega arith, omega arith), digits-IsInPair s h.1)

inner-IsInPair : (p : ℕ × ℕ) → All IsInPair (inner p)
unfolding inner
inner-IsInPair (t, b) =
    All-append IsInPair (format_u64 t) (codes " " ++ format_u64 b)
      (digits-IsInPair (format_u64 t) (format_u64-All t))
      ((omega arith, omega arith), digits-IsInPair (format_u64 b) (format_u64-All b))

-- Splitting at the first separator, and where there is none.
split_pairs-part :
    (s rest cur : Bytes)
    → All (λ c. c ≢ b';') s
    → split_pairs cur (s ++ b';' ∷ 32 ∷ rest) ≡ (cur ++ s) ∷ split_pairs [] rest
unfolding split_pairs
split_pairs-part [] rest cur h = rw append-nil refl
split_pairs-part (c ∷ []) rest cur h = ground (arith, append-nil (cur ++ c ∷ []))
split_pairs-part (c ∷ d ∷ s) rest cur h =
    ground (arith, split_pairs-part (d ∷ s) rest (cur ++ c ∷ []), append_assoc cur (c ∷ []) (d ∷ s))

split_pairs-end : (s cur : Bytes) → All (λ c. c ≢ b';') s → split_pairs cur s ≡ (cur ++ s) ∷ []
unfolding split_pairs
split_pairs-end [] cur h = rw append-nil refl
split_pairs-end (c ∷ []) cur h = refl
split_pairs-end (c ∷ d ∷ s) cur h =
    ground (arith, split_pairs-end (d ∷ s) (cur ++ c ∷ []), append_assoc cur (c ∷ []) (d ∷ s))

trim_end_matches-bracket : (s : Bytes) → All IsInPair s → trim_end_matches b')' (s ++ b')' ∷ []) ≡ s
unfolding trim_end_matches
trim_end_matches-bracket [] h = refl
trim_end_matches-bracket (c ∷ []) h = ground arith
trim_end_matches-bracket (c ∷ d ∷ s) h = ground (arith, trim_end_matches-bracket (d ∷ s) h.1)

trim_end_matches-newline : (s : Bytes) → trim_end_matches b')' (s ++ b'\n' ∷ []) ≡ s ++ b'\n' ∷ []
unfolding trim_end_matches
trim_end_matches-newline [] = refl
trim_end_matches-newline (c ∷ []) = ground (arith, trim_end_matches-newline [])
trim_end_matches-newline (c ∷ d ∷ s) = ground (arith, trim_end_matches-newline (d ∷ s))

trim_start_matches-digits :
    (s rest : Bytes) → s ≢ [] → All IsDigit s → trim_start_matches b'(' (s ++ rest) ≡ s ++ rest
unfolding trim_start_matches
trim_start_matches-digits [] rest n h = absurd (n refl)
trim_start_matches-digits (c ∷ s) rest n h = ground arith

inner-words : (p : ℕ × ℕ) → words (inner p) ≡ format_u64 p.0 ∷ format_u64 p.1 ∷ []
unfolding inner
inner-words (t, b) =
    printed_word t (format_u64 b) 32 blank
    ∙ ap (λ ws. format_u64 t ∷ ws)
        (words-digits_end (format_u64 b) (format_u64-ne-nil b) (format_u64-All b))

trim_start_matches-inner :
    (p : ℕ × ℕ) (rest : Bytes)
    → trim_start_matches b'(' (b'(' ∷ (inner p ++ rest)) ≡ inner p ++ rest
unfolding trim_start_matches inner
trim_start_matches-inner (t, b) rest =
    rw (append_assoc (format_u64 t) (codes " " ++ format_u64 b) rest) (
      trim_start_matches-digits (format_u64 t) ((codes " " ++ format_u64 b) ++ rest)
        (format_u64-ne-nil t) (format_u64-All t))

pair_text-inner : (p : ℕ × ℕ) → pair_text p ≡ b'(' ∷ (inner p ++ b')' ∷ [])
unfolding pair_text inner
pair_text-inner (t, b) =
    ap (λ s. b'(' ∷ s) (sym (append_assoc (format_u64 t) (codes " " ++ format_u64 b) (codes ")")))

-- Both numbers of a pair fit 64 bits.
abbrev pub Fits : ℕ × ℕ → Type 0
Fits p = (p.0 ≤ max_u64) × (p.1 ≤ max_u64)

parse_pair-pair_text : (p : ℕ × ℕ) → Fits p → parse_pair (pair_text p) ≡ some p
unfolding parse_pair
parse_pair-pair_text p h =
    rw
      (
        pair_text-inner p,
        trim_start_matches-inner p (b')' ∷ []),
        trim_end_matches-bracket (inner p) (inner-IsInPair p),
        inner-words p,
        parse_u64-format_u64 p.0 h.0,
        parse_u64-format_u64 p.1 h.1,
      )
      refl

bracket : is_space b')' ≡ false
unfolding is_space
bracket = refl

append-ne-nil : (s : Bytes) (c : ℕ) → s ++ c ∷ [] ≢ []
append-ne-nil [] c = λ e. cc
append-ne-nil (d ∷ s) c = λ e. cc

last_words :
    (p : ℕ × ℕ)
    → words (inner p ++ codes ")\n") ≡ format_u64 p.0 ∷ (format_u64 p.1 ++ codes ")") ∷ []
unfolding inner words
last_words (t, b) =
    let word : All IsInWord (format_u64 b ++ codes ")") =
      All-append IsInWord (format_u64 b) (codes ")")
        (digits-IsInWord (format_u64 b) (format_u64-All b)) (bracket, tt) in
    rw (append_assoc (format_u64 t) (codes " " ++ format_u64 b) (codes ")\n")) (
      printed_word t (format_u64 b ++ codes ")\n") 32 blank
      ∙ ap (λ ws. format_u64 t ∷ ws)
          (rw (sym (append_assoc (format_u64 b) (codes ")") (codes "\n"))) (
            words-word (format_u64 b ++ codes ")") [] 10 (append-ne-nil (format_u64 b) b')') word
              line_end)))

pair_text-last : (p : ℕ × ℕ) → pair_text p ++ codes "\n" ≡ b'(' ∷ (inner p ++ codes ")\n")
pair_text-last p =
    ap (λ s. s ++ codes "\n") (pair_text-inner p)
    ∙ ap (λ s. b'(' ∷ s) (append_assoc (inner p) (codes ")") (codes "\n"))

trim_end_matches-last : (s : Bytes) → trim_end_matches b')' (s ++ codes ")\n") ≡ s ++ codes ")\n"
trim_end_matches-last s =
    let e = append_assoc s (codes ")") (codes "\n") in
    ap (λ (r : Bytes). trim_end_matches b')' r) (sym e)
    ∙ (trim_end_matches-newline (s ++ codes ")") ∙ e)

parse_pair-last : (p : ℕ × ℕ) → Fits p → parse_pair (pair_text p ++ codes "\n") ≡ none
unfolding parse_pair
parse_pair-last p h =
    rw
      (
        pair_text-last p,
        trim_start_matches-inner p (codes ")\n"),
        trim_end_matches-last (inner p),
        last_words p,
        parse_u64-format_u64 p.0 h.0,
        parse_u64-append (format_u64 p.1) b')' (format_u64-ne-nil p.1) (format_u64-All p.1)
            (omega arith),
      )
      refl

no_separator : (s : Bytes) → All IsInPair s → All (λ c. c ≢ b';') s
no_separator [] h = tt
no_separator (c ∷ s) h = (h.0.0, no_separator s h.1)

pair_text-All : (p : ℕ × ℕ) → All (λ c. c ≢ b';') (pair_text p)
pair_text-All p = rw (pair_text-inner p) (
  omega arith,
  All-append (λ c. c ≢ b';') (inner p) (codes ")") (no_separator (inner p) (inner-IsInPair p))
      (omega arith, tt),
)

join_pairs-cons :
    (q : ℕ × ℕ) (ps : List (ℕ × ℕ)) (p : ℕ × ℕ)
    → join_pairs (q ∷ (ps ++ p ∷ [])) ++ codes "\n"
      ≡ pair_text q ++ b';' ∷ 32 ∷ (join_pairs (ps ++ p ∷ []) ++ codes "\n")
unfolding join_pairs
join_pairs-cons q [] p = append_assoc (pair_text q) (codes "; " ++ join_pairs (p ∷ [])) (codes "\n")
join_pairs-cons q (r ∷ ps) p =
    append_assoc (pair_text q) (codes "; " ++ join_pairs (r ∷ (ps ++ p ∷ []))) (codes "\n")

parsed :
    (ps : List (ℕ × ℕ)) (p : ℕ × ℕ)
    → All Fits ps
    → Fits p
    → parse_pairs (split_pairs [] (join_pairs (ps ++ p ∷ []) ++ codes "\n")) ≡ ps
unfolding parse_pairs join_pairs
parsed [] p h k =
    rw
      (
        split_pairs-end (pair_text p ++ codes "\n") [] (
            All-append (λ c. c ≢ b';') (pair_text p) (codes "\n") (pair_text-All p)
              (omega arith, tt)),
        parse_pair-last p k,
      )
      refl
parsed (q ∷ ps) p h k =
    rw
      (
        join_pairs-cons q ps p,
        split_pairs-part (pair_text q) (join_pairs (ps ++ p ∷ []) ++ codes "\n") []
            (pair_text-All q),
        parse_pair-pair_text q h.0,
        parsed ps p h.1 k,
      )
      refl

-- Of a report of at least one chunk, whose numbers fit 64 bits, the client takes all pairs but the
-- last one, which is lost.
pub time_result_pairs-time_result_line :
    (ps : List (ℕ × ℕ)) (p : ℕ × ℕ)
    → All Fits ps
    → Fits p
    → time_result_pairs (time_result_line (ps ++ p ∷ [])) ≡ ps
unfolding time_result_pairs time_result_line
time_result_pairs-time_result_line ps p h k = parsed ps p h k
