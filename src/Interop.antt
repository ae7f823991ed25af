-- ===== src/Interop.antt =====
-- The commands that the client writes, as the server's handler of a line takes them
-- (src/client/handlers, src/mioserver/handlers/common.rs): the words that stand in a line.
pub mod Download
pub mod Upload
pub mod Replies
pub mod TimeResult
use nettest.Common.{
  ℕ, ◌/◌, ◌≤◌, ◌<◌, ◌++◌, List, ◌∷◌, [], some, none, true, false, Bytes, codes, ◌≡◌, ◌≢◌, refl, ◌∙◌,
  ap, arith, length, drop, All, contains, starts_with, le→leb, leb, append_assoc, append-nil,
}
use nettest.Chunks.{min_chunk_size, max_chunk_size}
use nettest.Text.{is_space, format_u64, parse_u64, words, trim, max_u64, split_terminator}
use nettest.Text.Decimal.{IsDigit, format_u64-All, format_u64-ne-nil, parse_u64-format_u64}
use nettest.Text.Words.{words-trim, words-digits, words-digits_end, words_end, words_space}
use nettest.Net.{Outcome, writable}
use nettest.Server.{TestState, enter, get_time_send_chunk}
use nettest.Server.Command.{command, arguments, get_time_arguments, size_argument, in_range}
use nettest.Client.GetTime.{time_command, test_duration_ns}

-- No name of a command begins with a digit.
pub contains-digits :
    (s rest : Bytes)
    → All IsDigit s
    → contains (codes "GETCHUNKS") (s ++ rest) ≡ contains (codes "GETCHUNKS") rest
contains-digits [] rest h = refl
contains-digits (c ∷ s) rest h = ground (arith, contains-digits s rest)

pub blank : is_space 32 ≡ true
unfolding is_space
blank = refl

pub line_end : is_space 10 ≡ true
unfolding is_space
line_end = refl

pub printed_word :
    (n : ℕ) (rest : Bytes) (c : ℕ)
    → is_space c ≡ true
    → words (format_u64 n ++ c ∷ rest) ≡ format_u64 n ∷ words rest
printed_word n rest c e =
    words-digits (format_u64 n) rest c (format_u64-ne-nil n) (format_u64-All n) e

-- Two numbers behind a blank, up to the end of the line.
pub two_words :
    (a b : ℕ)
    → words (trim (codes " " ++ (format_u64 a ++ (codes " " ++ (format_u64 b ++ codes "\n")))))
      ≡ format_u64 a ∷ format_u64 b ∷ []
unfolding words
two_words a b =
    words-trim (codes " " ++ (format_u64 a ++ (codes " " ++ (format_u64 b ++ codes "\n"))))
    ∙ (words_space (format_u64 a ++ (codes " " ++ (format_u64 b ++ codes "\n"))) 32 blank
        ∙ (printed_word a (format_u64 b ++ codes "\n") 32 blank
            ∙ ap (λ ws. format_u64 a ∷ ws) (printed_word b [] 10 line_end)))

pub size_argument_lem :
    (p : Bytes) (size : ℕ)
    → min_chunk_size ≤ size
    → size ≤ max_chunk_size
    → size_argument (p ∷ format_u64 size ∷ []) ≡ some size
unfolding size_argument
size_argument_lem p size h k = rw (parse_u64-format_u64 size (omega arith)) (ground arith)

-- The same in a line whose end is cut off.
pub two_words_end :
    (a b : ℕ)
    → words (trim (codes " " ++ (format_u64 a ++ (codes " " ++ format_u64 b))))
      ≡ format_u64 a ∷ format_u64 b ∷ []
two_words_end a b =
    words-trim (codes " " ++ (format_u64 a ++ (codes " " ++ format_u64 b)))
    ∙ (words_space (format_u64 a ++ (codes " " ++ format_u64 b)) 32 blank
        ∙ (printed_word a (format_u64 b) 32 blank
            ∙ ap (λ ws. format_u64 a ∷ ws)
                (words-digits_end (format_u64 b) (format_u64-ne-nil b) (format_u64-All b))))
