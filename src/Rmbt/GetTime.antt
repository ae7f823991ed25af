-- ===== src/Rmbt/GetTime.antt =====
-- GETTIME of the older server (src/tokio_server/handlers/get_time.rs).
use nettest.Common.{
  ℕ, ◌+◌, ◌||◌, ◌-◌, ◌*◌, ◌^◌, ◌%◌, List, [], ◌∷◌, ltb, if◌then◌else◌, Option, none, some, Bytes,
  drop, get_elem?,
}
use nettest.Text.{words, trim, parse_u64}
use nettest.Chunks.{min_chunk_size, max_chunk_size, set_last}
use nettest.Rmbt.{Peer, Done, done, writes_on, write, then_done, Write, write_by, write_all, flush}
use nettest.Rmbt.RandomBuffer.{RandomBuffer, get_random_slice, generate_chunks}
use nettest.Rmbt.GetChunks.{resp_err, confirm}

-- The index is 62 at most, and there are 64 chunks.
abbrev pub chunk_at : ℕ → List Bytes → Bytes
chunk_at i chunks = elim (get_elem? chunks i) [ none ↦ [] | some c ↦ c ]

abbrev pub next_index : ℕ → ℕ
next_index i = if ltb 62 (i + 1) then 0 else i + 1

-- `while start.elapsed().as_nanos() < limit`, over the writes to come. Behind them the clock stands
-- still, so the loop does not come to its end.
module _ (limit start : ℕ) (chunks : List Bytes) where
  unfoldable pub time_loop : List Write → ℕ → Peer → Done Unit
  time_loop [] i p = if ltb (p.now - start) limit then writes_on p else done tt p
  time_loop (w ∷ ws) i p =
      if ltb (p.now - start) limit
      then then_done (write_by (chunk_at i chunks) (w ∷ ws) p)
          (λ u q. time_loop ws (next_index i) q)
      else done tt p

module _ (random : RandomBuffer) where
  abbrev pub last_chunk : ℕ → Bytes
  last_chunk size = let (buf, next) = get_random_slice random size 0 in set_last size 0xFF buf

  -- The product of the seconds is one of u64.
  unfoldable pub timed_transfer : ℕ → ℕ → Peer → Done Unit
  timed_transfer duration size p =
      then_done
        (time_loop ((duration * 1000000000) % 2 ^ 64) p.now (generate_chunks random 0x00 size 64 0)
          p.writes 0 p)
        (λ u q.
          then_done (write_all (last_chunk size) q)
            (λ v r. then_done (flush r) (λ w s. confirm (s.now - p.now) s)))

  abbrev pub for_size : ℕ → ℕ → Peer → Done Unit
  for_size duration size p =
      if ltb duration 2 then write_all resp_err p else timed_transfer duration size p

  -- A size out of range is refused with a single `write`.
  abbrev pub sized : ℕ → Option ℕ → Peer → Done Unit
  sized duration none p = write_all resp_err p
  sized duration (some size) p =
      if ltb size min_chunk_size || ltb max_chunk_size size
      then write resp_err p
      else for_size duration size p

  abbrev pub for_duration : Option ℕ → (ℕ → Done Unit) → Peer → Done Unit
  for_duration none k p = write_all resp_err p
  for_duration (some duration) k p = k duration

  abbrev pub for_parts : List Bytes → Peer → Done Unit
  for_parts [] p = write_all resp_err p
  for_parts (a ∷ []) p = for_duration (parse_u64 a) (λ d. for_size d min_chunk_size p) p
  for_parts (a ∷ b ∷ []) p = for_duration (parse_u64 a) (λ d. sized d (parse_u64 b) p) p
  for_parts (a ∷ b ∷ c ∷ rest) p = write_all resp_err p

  unfoldable pub handle_get_time : Bytes → Peer → Done Unit
  handle_get_time command p = for_parts (words (trim (drop 7 command))) p
