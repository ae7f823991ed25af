-- ===== src/Rmbt/GetChunks/Reply.antt =====
-- What a download of the older server sends (src/tokio_server/handlers/get_chunks.rs,
-- src/tokio_server/utils/random_buffer.rs).
use nettest.Common.{
  if◌then◌else◌, ℕ, zero, suc, ◌-◌, ◌%◌, ◌≤◌, ◌==◌, List, [], ◌∷◌, ◌++◌, Bytes, codes, take, drop,
  replicate, le→leb, ◌≡◌, refl, ap, ◌∙◌, arith, sym, length, length-append, length-replicate,
  append_assoc, append-nil,
}
use nettest.Text.{format_u64, is_space, words, trim, max_u64}
use nettest.Text.Decimal.{format_u64-All, format_u64-ne-nil, parse_u64-format_u64}
use nettest.Text.Words.{words-trim, words-digits, words-digits_end, words_space, trim-word_space}
use nettest.Chunks.{set_last, min_chunk_size, max_chunk_size}
use nettest.Rmbt.{Peer, done, then_done, write_all, Write, sends, read, Read, arrives}
use nettest.Rmbt.RandomBuffer.{RandomBuffer, random_size, get_random_slice, generate_chunks}
use nettest.Rmbt.GetChunks.{send_chunks, transfer, time_line, handle_get_chunks}

-- The random bytes that every chunk of a size carries, before its last byte is set.
abbrev pub body : RandomBuffer → ℕ → Bytes
body random size = take size random.contents

-- So many plain chunks and a last one.
abbrev pub chunks_of : RandomBuffer → ℕ → ℕ → ℕ → List Bytes
chunks_of random last size n =
    replicate n (set_last size 0x00 (body random size))
    ++ set_last size last (body random size) ∷ []

first_slice :
    (random : RandomBuffer) (size offset : ℕ)
    → size ≤ random_size
    → offset % random_size ≡ 0
    → get_random_slice random size offset ≡ (body random size, random_size)
unfolding get_random_slice
first_slice random size offset h e = rw e (ground arith)

not_last : (n last : ℕ) → (if suc n == 0 then last else 0x00) ≡ 0x00
not_last n last = ground arith

-- The offset comes back to the beginning of the random bytes with every chunk: all chunks of a
-- download carry the same bytes, but for the last byte of the last one.
pub generate_chunks-chunks_of :
    (random : RandomBuffer) (last size n offset : ℕ)
    → size ≤ random_size
    → offset % random_size ≡ 0
    → generate_chunks random last size (suc n) offset ≡ chunks_of random last size n
unfolding generate_chunks
generate_chunks-chunks_of random last size zero offset h e =
    rw (first_slice random size offset h e) refl
generate_chunks-chunks_of random last size (suc n) offset h e =
    rw (first_slice random size offset h e) (
      ap
        (λ (b : ℕ).
          set_last size b (body random size) ∷ generate_chunks random last size (suc n) random_size)
        (not_last n last)
      ∙ ap (λ cs. set_last size 0x00 (body random size) ∷ cs)
          (generate_chunks-chunks_of random last size n random_size h (omega arith)))

abbrev pub flatten : List Bytes → Bytes
flatten [] = []
flatten (c ∷ cs) = c ++ flatten cs

-- Writes that succeed, at these times.
abbrev pub sending : List ℕ → List Write → List Write
sending [] ws = ws
sending (t ∷ ts) ws = sends t ∷ sending ts ws

abbrev last_time : ℕ → List ℕ → ℕ
last_time now [] = now
last_time now (t ∷ ts) = last_time t ts

send_chunks-flatten :
    (cs : List Bytes) (ts : List ℕ) (ws : List Write) (p : Peer)
    → length ts ≡ length cs
    → p.writes ≡ sending ts ws
    → send_chunks cs p
      ≡ done tt (record p { sent = p.sent ++ flatten cs; writes = ws; now = last_time p.now ts })
unfolding send_chunks write_all then_done
send_chunks-flatten [] [] ws p h w = rw (append-nil, w) refl
send_chunks-flatten [] (t ∷ ts) ws p h w = ground arith
send_chunks-flatten (c ∷ cs) [] ws p h w = ground arith
send_chunks-flatten (c ∷ cs) (t ∷ ts) ws p h w = rw w (
    send_chunks-flatten cs ts ws (record p { sent = p.sent ++ c; writes = sending ts ws; now = t })
      (omega arith) refl
    ∙ ap (λ (b : Bytes). done tt (record p { sent = b; writes = ws; now = last_time t ts }))
        (append_assoc p.sent c (flatten cs)))

length-chunks_of :
    (random : RandomBuffer) (last size n : ℕ) → length (chunks_of random last size n) ≡ suc n
length-chunks_of random last size n =
    length-append (replicate n (set_last size 0x00 (body random size)))
      (set_last size last (body random size) ∷ [])
    ∙ omega (arith, length-replicate n (set_last size 0x00 (body random size)))

-- The client's command for a download.
abbrev pub get_chunks_command : ℕ → ℕ → Bytes
get_chunks_command n size = codes "GETCHUNKS " ++ (format_u64 n ++ b' ' ∷ format_u64 size)

command-words :
    (n size : ℕ)
    → words (trim (drop 9 (get_chunks_command n size))) ≡ format_u64 n ∷ format_u64 size ∷ []
unfolding is_space
command-words n size =
    words-trim (b' ' ∷ (format_u64 n ++ b' ' ∷ format_u64 size))
    ∙ (words_space (format_u64 n ++ b' ' ∷ format_u64 size) b' ' refl
        ∙ (words-digits (format_u64 n) (format_u64 size) b' ' (format_u64-ne-nil n)
              (format_u64-All n) refl
            ∙ ap (λ ws. format_u64 n ∷ ws)
                (words-digits_end (format_u64 size) (format_u64-ne-nil size)
                  (format_u64-All size))))

confirmed : trim (codes "OK\n") ≡ codes "OK"
unfolding is_space
confirmed = trim-word_space (codes "OK") b'\n' (refl, (refl, tt)) refl

transfer-sends :
    (random : RandomBuffer) (n size t sent_at told_at : ℕ) (ts : List ℕ) (ws : List Write)
    (p : Peer) (rs : List Read)
    → size ≤ random_size
    → length ts ≡ suc n
    → p.writes ≡ sending ts (sends sent_at ∷ sends told_at ∷ ws)
    → p.reads ≡ arrives t (codes "OK\n") ∷ rs
    → transfer random (suc n) size p
      ≡ done tt (record p {
        reads = rs;
        writes = ws;
        now = told_at;
        sent = (p.sent ++ flatten (chunks_of random 0xFF size n)) ++ time_line (sent_at - p.now);
      })
unfolding transfer then_done write_all read
transfer-sends random n size t sent_at told_at ts ws p rs h l w r =
    rw
      (
        generate_chunks-chunks_of random 0xFF size n 0 h (omega arith),
        send_chunks-flatten (chunks_of random 0xFF size n) ts (sends sent_at ∷ sends told_at ∷ ws) p
            (l ∙ sym (length-chunks_of random 0xFF size n)) w,
        r,
        append-nil,
        confirmed,
      )
      refl

-- A download that the client confirms: for every number of chunks that fits and every size in range,
-- whenever the chunks are written, the flush returns and the confirmation arrives, the reply to the
-- command is that number of chunks, all but the last one plain, and the time from the beginning until
-- the flush has returned.
pub handle_get_chunks-sends :
    (random : RandomBuffer) (n size t sent_at told_at : ℕ) (ts : List ℕ) (ws : List Write)
    (p : Peer) (rs : List Read)
    → suc n ≤ max_u64
    → min_chunk_size ≤ size
    → size ≤ max_chunk_size
    → length ts ≡ suc n
    → p.writes ≡ sending ts (sends sent_at ∷ sends told_at ∷ ws)
    → p.reads ≡ arrives t (codes "OK\n") ∷ rs
    → handle_get_chunks random (get_chunks_command (suc n) size) p
      ≡ done tt (record p {
        reads = rs;
        writes = ws;
        now = told_at;
        sent = (p.sent ++ flatten (chunks_of random 0xFF size n)) ++ time_line (sent_at - p.now);
      })
unfolding handle_get_chunks
handle_get_chunks-sends random n size t sent_at told_at ts ws p rs h k l c w r =
    rw
      (
        command-words (suc n) size,
        parse_u64-format_u64 (suc n) h,
        parse_u64-format_u64 size (omega (arith, l)),
        le→leb min_chunk_size size k,
        le→leb size max_chunk_size l,
      )
      (ground
        (arith, transfer-sends random n size t sent_at told_at ts ws p rs (omega (arith, l)) c w r))
