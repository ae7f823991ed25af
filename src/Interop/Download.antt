-- ===== src/Interop/Download.antt =====
-- The client's commands for the downloads, as the server takes them.
use nettest.Common.{
  ℕ, ◌≤◌, ◌++◌, ◌∷◌, [], some, false, Bytes, codes, ◌≡◌, refl, ◌∙◌, sym, ap, arith, length, All,
  contains, le→leb, append_assoc,
}
use nettest.Chunks.{min_chunk_size, max_chunk_size}
use nettest.Text.{format_u64, max_u64}
use nettest.Text.Decimal.{format_u64-All, parse_u64-format_u64}
use nettest.Net.{writable}
use nettest.Server.{TestState, enter, get_time_send_chunk, get_chunk_send_chunk}
use nettest.Interop.{contains-digits, two_words, two_words_end, size_argument_lem}
use nettest.Text.Lines.{IsInLine, All-append, digits-IsInLine, split_terminator-line}
use nettest.Client.GetChunks.{chunks_command}
use nettest.Server.Command.{
  get_chunks_line, get_chunks_arguments, command, arguments, get_time_arguments,
}
use nettest.Client.GetTime.{time_command}

time_text : ℕ → ℕ → Bytes
time_text d size =
    codes "GETTIME " ++ (format_u64 d ++ (codes " " ++ (format_u64 size ++ codes "\n")))

time_text-contains : (d size : ℕ) → contains (codes "GETCHUNKS") (time_text d size) ≡ false
unfolding time_text
time_text-contains d size =
    contains-digits (format_u64 d) (codes " " ++ (format_u64 size ++ codes "\n")) (format_u64-All d)
    ∙ contains-digits (format_u64 size) (codes "\n") (format_u64-All size)

time_text-arguments :
    (d size : ℕ) → arguments 7 (time_text d size) ≡ some (format_u64 d ∷ format_u64 size ∷ [])
unfolding arguments time_text
time_text-arguments d size =
    rw (le→leb 7 (length (time_text d size)) (omega arith)) (ap some (two_words d size))

-- A command for a timed download is taken up with its duration and its size.
time_text-command :
    (d size n : ℕ) (s : TestState)
    → d ≤ max_u64
    → min_chunk_size ≤ size
    → size ≤ max_chunk_size
    → command (time_text d size) n s
      ≡ enter get_time_send_chunk writable n
          (record s { duration = d; chunk_size = size; read_pos = 0 })
unfolding command time_text get_time_arguments
time_text-command d size n s g h k =
    rw
      (
        time_text-contains d size,
        time_text-arguments d size,
        parse_u64-format_u64 d g,
        size_argument_lem (format_u64 d) size h k,
      )
      refl

-- The client's command for a timed download is taken up by the server with the duration of ten
-- seconds and the chunk size that the client asked for, if the size is one that the server allows.
pub time_command-understood :
    (size n : ℕ) (s : TestState)
    → min_chunk_size ≤ size
    → size ≤ max_chunk_size
    → command (time_command size) n s
      ≡ enter get_time_send_chunk writable n
          (record s { duration = 10; chunk_size = size; read_pos = 0 })
unfolding time_command time_text
time_command-understood size n s h k = time_text-command 10 size n s (omega arith) h k

chunks_front : ℕ → ℕ → Bytes
chunks_front num size = codes "GETCHUNKS " ++ (format_u64 num ++ (codes " " ++ format_u64 size))

chunks_front-line : (num size : ℕ) → chunks_command num size ≡ chunks_front num size ++ codes "\n"
unfolding chunks_command chunks_front
chunks_front-line num size =
    ap (λ t. codes "GETCHUNKS " ++ t)
      (sym (append_assoc (format_u64 num) (codes " " ++ format_u64 size) (codes "\n")))

chunks_front-IsInLine : (num size : ℕ) → All IsInLine (chunks_front num size)
unfolding chunks_front
chunks_front-IsInLine num size =
    All-append (codes "GETCHUNKS ") (format_u64 num ++ (codes " " ++ format_u64 size))
      (ground arith)
      (All-append (format_u64 num) (codes " " ++ format_u64 size)
        (digits-IsInLine (format_u64 num) (format_u64-All num))
        (omega arith, digits-IsInLine (format_u64 size) (format_u64-All size)))

chunks_front-arguments :
    (num size : ℕ)
    → arguments 9 (chunks_front num size) ≡ some (format_u64 num ∷ format_u64 size ∷ [])
unfolding arguments chunks_front
chunks_front-arguments num size =
    rw (le→leb 9 (length (chunks_front num size)) (omega arith)) (ap some (two_words_end num size))

-- The client's command for a round of the pre-download is taken up by the server with the number
-- of chunks and the chunk size that the client asked for, if the size is one that the server allows
-- and the number fits 64 bits.
pub chunks_command-understood :
    (num size n : ℕ) (s : TestState)
    → num ≤ max_u64
    → min_chunk_size ≤ size
    → size ≤ max_chunk_size
    → command (chunks_command num size) n s
      ≡ enter get_chunk_send_chunk writable n
          (record s { num_chunks = num; chunk_size = size; read_pos = 0 })
unfolding command get_chunks_line get_chunks_arguments chunks_command
chunks_command-understood num size n s g h k =
    rw
      (
        chunks_front-line num size,
        split_terminator-line (chunks_front num size) (chunks_front-IsInLine num size),
        chunks_front-arguments num size,
        parse_u64-format_u64 num g,
        size_argument_lem (format_u64 num) size h k,
      )
      refl
