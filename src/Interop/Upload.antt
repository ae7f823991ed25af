-- ===== src/Interop/Upload.antt =====
-- The client's command for the upload, as the server takes it.
use nettest.Common.{ℕ, ◌≤◌, ◌∷◌, [], false, codes, ◌≡◌, refl, ap, arith, contains, le→leb}
use nettest.Chunks.{min_chunk_size, max_chunk_size}
use nettest.Text.{format_u64, words}
use nettest.Text.Decimal.{format_u64-All, parse_u64-format_u64}
use nettest.Net.{writable}
use nettest.Server.{TestState, enter, put_time_result_send_ok}
use nettest.Interop.{contains-digits, printed_word, line_end}
use nettest.Client.PutTimeResult.{upload_command}
use nettest.Server.Command.{put_time_result, command}

upload_command-words :
    (size : ℕ) → words (upload_command size) ≡ codes "PUTTIMERESULT" ∷ format_u64 size ∷ []
unfolding upload_command words
upload_command-words size = ap (λ ws. codes "PUTTIMERESULT" ∷ ws) (printed_word size [] 10 line_end)

upload_command-contains : (size : ℕ) → contains (codes "GETCHUNKS") (upload_command size) ≡ false
unfolding upload_command
upload_command-contains size = contains-digits (format_u64 size) (codes "\n") (format_u64-All size)

-- The client's command for the upload is taken up by the server with the chunk size that the client
-- will send, if the size is one that the server allows.
pub upload_command-understood :
    (size n : ℕ) (s : TestState)
    → min_chunk_size ≤ size
    → size ≤ max_chunk_size
    → command (upload_command size) n s
      ≡ enter put_time_result_send_ok writable n (record s { chunk_size = size; read_pos = 0 })
unfolding command put_time_result upload_command
upload_command-understood size n s h k =
    rw
      (
        upload_command-contains size,
        upload_command-words size,
        parse_u64-format_u64 size (omega arith),
        le→leb min_chunk_size size h,
        le→leb size max_chunk_size k,
      )
      refl
