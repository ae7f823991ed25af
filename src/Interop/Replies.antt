-- ===== src/Interop/Replies.antt =====
-- The server's report of a time, as the client reads it (src/client/handlers/get_chunks.rs,
-- get_time.rs and ping.rs).
use nettest.Common.{
  ℕ, ◌≤◌, ◌++◌, ◌∷◌, [], some, Bytes, codes, ◌≡◌, refl, ap, arith, All, append_assoc,
}
use nettest.Text.{format_u64, max_u64, words}
use nettest.Text.Decimal.{format_u64-All, parse_u64-format_u64}
use nettest.Server.GetChunks.{time_line}
use nettest.Client.GetChunks.{find_text, before_newline, parse_time_response}
use nettest.Client.GetTime.{reported_time}
use nettest.Text.Lines.{IsInLine, All-append, digits-IsInLine}
use nettest.Interop.{printed_word, line_end}

before_newline-line :
    (s rest : Bytes) → All IsInLine s → before_newline (s ++ b'\n' ∷ rest) ≡ some s
unfolding before_newline
before_newline-line [] rest h = refl
before_newline-line (c ∷ s) rest h = ground (arith, before_newline-line s rest)

time_tail : ℕ → Bytes → Bytes
time_tail t rest = format_u64 t ++ b'\n' ∷ rest

time_line-append : (t : ℕ) (rest : Bytes) → time_line t ++ rest ≡ codes "TIME " ++ time_tail t rest
unfolding time_line time_tail
time_line-append t rest =
    ap (λ x. codes "TIME " ++ x) (append_assoc (format_u64 t) (codes "\n") rest)

first_line :
    (t : ℕ) (rest : Bytes)
    → before_newline (codes "TIME " ++ time_tail t rest) ≡ some (codes "TIME " ++ format_u64 t)
unfolding time_tail
first_line t rest = before_newline-line (codes "TIME " ++ format_u64 t) rest (
    All-append (codes "TIME ") (format_u64 t) (ground arith)
      (digits-IsInLine (format_u64 t) (format_u64-All t)))

time_words :
    (t : ℕ) (rest : Bytes)
    → words (codes "TIME " ++ time_tail t rest) ≡ codes "TIME" ∷ format_u64 t ∷ words rest
unfolding words time_tail
time_words t rest = ap (λ ws. codes "TIME" ∷ ws) (printed_word t rest 10 line_end)

-- The client finds the time in a pre-download's or a ping's report, whatever stands behind the line.
pub parse_time_response-time_line :
    (t : ℕ) (rest : Bytes) → t ≤ max_u64 → parse_time_response (time_line t ++ rest) ≡ some t
unfolding parse_time_response
parse_time_response-time_line t rest h =
    rw (time_line-append t rest, find_text, first_line t rest) (parse_u64-format_u64 t h)

-- The client takes the second word of a download's report for the time, and so reads the time that
-- the server sent, whatever stands behind the line.
pub reported_time-time_line :
    (t : ℕ) (rest : Bytes) → t ≤ max_u64 → reported_time (time_line t ++ rest) ≡ some t
unfolding reported_time
reported_time-time_line t rest h =
    rw (time_line-append t rest, time_words t rest) (parse_u64-format_u64 t h)
