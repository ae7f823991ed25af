-- ===== src/Rmbt/GetChunks.antt =====
-- GETCHUNKS of the older server (src/tokio_server/handlers/get_chunks.rs).
pub mod Reply
use nettest.Common.{
  ℕ, ◌-◌, Bool, true, false, ◌&&◌, List, [], ◌∷◌, ◌++◌, ◌==◌, leb, if◌then◌else◌, Option, none,
  some, Bytes, codes, drop, bytes_eq,
}
use nettest.Text.{words, trim, parse_u64, format_u64}
use nettest.Chunks.{min_chunk_size, max_chunk_size}
use nettest.Rmbt.{Peer, Done, done, broken, then_done, write_all, flush, read}
use nettest.Rmbt.RandomBuffer.{RandomBuffer, generate_chunks}

abbrev pub resp_err : Bytes
resp_err = codes "ERR\n"

-- A chunk's size that is in range.
abbrev pub in_range : Option ℕ → Option ℕ
in_range none = none
in_range (some n) = if leb min_chunk_size n && leb n max_chunk_size then some n else none

-- `for chunk in &chunks { stream.write_all(chunk).await?; }`.
unfoldable pub send_chunks : List Bytes → Peer → Done Unit
send_chunks [] p = done tt p
send_chunks (c ∷ cs) p = then_done (write_all c p) (λ u q. send_chunks cs q)

abbrev pub time_line : ℕ → Bytes
time_line t = codes "TIME " ++ (format_u64 t ++ codes "\n")

-- The answer of the client, and the report of the time.
abbrev pub report : ℕ → Bytes → Peer → Done Unit
report t answer p =
    if bytes_eq (trim answer) (codes "OK") then write_all (time_line t) p else broken p

abbrev pub confirm : ℕ → Peer → Done Unit
confirm t p = then_done (read 1024 p) (report t)

module _ (random : RandomBuffer) where
  unfoldable pub transfer : ℕ → ℕ → Peer → Done Unit
  transfer n size p =
      then_done (send_chunks (generate_chunks random 0xFF size n 0) p)
        (λ u q. then_done (flush q) (λ v r. confirm (r.now - p.now) r))

  abbrev pub with_size : ℕ → Option ℕ → Peer → Done Unit
  with_size n none p = write_all resp_err p
  with_size n (some size) p = if n == 0 then write_all resp_err p else transfer n size p

  abbrev pub with_count : Option ℕ → Option ℕ → Peer → Done Unit
  with_count none size p = write_all resp_err p
  with_count (some n) size p = with_size n size p

  abbrev pub with_parts : List Bytes → Peer → Done Unit
  with_parts [] p = write_all resp_err p
  with_parts (a ∷ []) p = with_count (parse_u64 a) (some min_chunk_size) p
  with_parts (a ∷ b ∷ []) p = with_count (parse_u64 a) (in_range (parse_u64 b)) p
  with_parts (a ∷ b ∷ c ∷ rest) p = write_all resp_err p

  unfoldable pub handle_get_chunks : Bytes → Peer → Done Unit
  handle_get_chunks command p = with_parts (words (trim (drop 9 command))) p
