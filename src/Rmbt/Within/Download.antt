-- ===== src/Rmbt/Within/Download.antt =====
-- The reads that are left behind GETCHUNKS, GETTIME and PING of the older server
-- (src/tokio_server/handlers).
use nettest.Common.{
  ◌||◌, ℕ, ◌-◌, ◌*◌, ◌^◌, ◌%◌, ◌≤◌, ◌==◌, ltb, List, [], ◌∷◌, Option, none, some, Bytes, codes,
  drop, length, bytes_eq,
}
use nettest.Text.{trim, parse_u64, words}
use nettest.Chunks.{min_chunk_size, max_chunk_size}
use nettest.Rmbt.{Done, writes_on, Peer, done, Write, write_by, write_all, read}
use nettest.Rmbt.RandomBuffer.{RandomBuffer, generate_chunks}
use nettest.Rmbt.GetChunks.{
  send_chunks, transfer, with_size, with_count, with_parts, in_range, time_line, resp_err,
  handle_get_chunks,
}
use nettest.Rmbt.GetTime.{
  chunk_at, next_index, time_loop, last_chunk, timed_transfer, for_size, sized, for_duration,
  for_parts, handle_get_time,
}
use nettest.Rmbt.Ping.{answered, handle_ping, handle_quit}
use nettest.Rmbt.Within.{
  Within, then_done-Within, write_by-Within, write-Within, write_all-Within, read-Within, if-Within,
  send_chunks-Within, finish-Within,
}

module _ {n : ℕ} (random : RandomBuffer) where
  transfer-Within :
      (m size : ℕ) (p : Peer) → length p.reads ≤ n → Within n (transfer random m size p)
  unfolding transfer
  transfer-Within m size p h =
      then_done-Within (send_chunks (generate_chunks random 0xFF size m 0) p) _
        (send_chunks-Within (generate_chunks random 0xFF size m 0) p h)
        (λ u q k. finish-Within p.now q k)

  with_size-Within :
      (m : ℕ) (size : Option ℕ) (p : Peer)
      → length p.reads ≤ n
      → Within n (with_size random m size p)
  with_size-Within m none p h = write_all-Within resp_err p h
  with_size-Within m (some size) p h =
      if-Within n (m == 0) _ _ (write_all-Within resp_err p h) (transfer-Within m size p h)

  with_count-Within :
      (m size : Option ℕ) (p : Peer) → length p.reads ≤ n → Within n (with_count random m size p)
  with_count-Within none size p h = write_all-Within resp_err p h
  with_count-Within (some m) size p h = with_size-Within m size p h

  with_parts-Within :
      (ws : List Bytes) (p : Peer) → length p.reads ≤ n → Within n (with_parts random ws p)
  with_parts-Within [] p h = write_all-Within resp_err p h
  with_parts-Within (a ∷ []) p h = with_count-Within (parse_u64 a) (some min_chunk_size) p h
  with_parts-Within (a ∷ b ∷ []) p h = with_count-Within (parse_u64 a) (in_range (parse_u64 b)) p h
  with_parts-Within (a ∷ b ∷ c ∷ rest) p h = write_all-Within resp_err p h

  pub handle_get_chunks-Within :
      (c : Bytes) (p : Peer) → length p.reads ≤ n → Within n (handle_get_chunks random c p)
  unfolding handle_get_chunks
  handle_get_chunks-Within c p h = with_parts-Within (words (trim (drop 9 c))) p h

  time_loop-Within :
      (limit start : ℕ) (chunks : List Bytes) (ws : List Write) (i : ℕ) (p : Peer)
      → length p.reads ≤ n
      → Within n (time_loop limit start chunks ws i p)
  unfolding time_loop
  time_loop-Within limit start chunks [] i p h =
      if-Within n (ltb (p.now - start) limit) (writes_on p) (done tt p) tt h
  time_loop-Within limit start chunks (w ∷ ws) i p h =
      if-Within n (ltb (p.now - start) limit) _ (done tt p)
        (then_done-Within (write_by (chunk_at i chunks) (w ∷ ws) p) _
          (write_by-Within (chunk_at i chunks) (w ∷ ws) p h)
          (λ u q k. time_loop-Within limit start chunks ws (next_index i) q k))
        h

  timed_transfer-Within :
      (d size : ℕ) (p : Peer) → length p.reads ≤ n → Within n (timed_transfer random d size p)
  unfolding timed_transfer
  timed_transfer-Within d size p h =
      then_done-Within
        (time_loop ((d * 1000000000) % 2 ^ 64) p.now (generate_chunks random 0x00 size 64 0)
          p.writes 0 p)
        _ (time_loop-Within _ p.now _ p.writes 0 p h)
        (λ u q k.
          then_done-Within (write_all (last_chunk random size) q) _ (write_all-Within _ q k)
            (λ v r l. finish-Within p.now r l))

  for_size-Within :
      (d size : ℕ) (p : Peer) → length p.reads ≤ n → Within n (for_size random d size p)
  for_size-Within d size p h =
      if-Within n (ltb d 2) _ _ (write_all-Within resp_err p h) (timed_transfer-Within d size p h)

  sized-Within :
      (d : ℕ) (size : Option ℕ) (p : Peer) → length p.reads ≤ n → Within n (sized random d size p)
  sized-Within d none p h = write_all-Within resp_err p h
  sized-Within d (some size) p h =
      if-Within n (ltb size min_chunk_size || ltb max_chunk_size size) _ _
        (write-Within resp_err p h) (for_size-Within d size p h)

  for_duration-Within :
      (d : Option ℕ) (k : ℕ → Done Unit) (p : Peer)
      → length p.reads ≤ n
      → ((m : ℕ) → Within n (k m))
      → Within n (for_duration random d k p)
  for_duration-Within none k p h f = write_all-Within resp_err p h
  for_duration-Within (some d) k p h f = f d

  for_parts-Within :
      (ws : List Bytes) (p : Peer) → length p.reads ≤ n → Within n (for_parts random ws p)
  for_parts-Within [] p h = write_all-Within resp_err p h
  for_parts-Within (a ∷ []) p h =
      for_duration-Within (parse_u64 a) _ p h (λ d. for_size-Within d min_chunk_size p h)
  for_parts-Within (a ∷ b ∷ []) p h =
      for_duration-Within (parse_u64 a) _ p h (λ d. sized-Within d (parse_u64 b) p h)
  for_parts-Within (a ∷ b ∷ c ∷ rest) p h = write_all-Within resp_err p h

  pub handle_get_time-Within :
      (c : Bytes) (p : Peer) → length p.reads ≤ n → Within n (handle_get_time random c p)
  unfolding handle_get_time
  handle_get_time-Within c p h = for_parts-Within (words (trim (drop 7 c))) p h

answered-Within :
    {n : ℕ} (start : ℕ) (s : Bytes) (p : Peer) → length p.reads ≤ n → Within n (answered start s p)
answered-Within start [] p h = tt
answered-Within {n} start (c ∷ s) p h =
    if-Within n (bytes_eq (trim (c ∷ s)) (codes "OK")) _ _
      (write_all-Within (time_line (p.now - start)) p h) tt

pub handle_ping-Within : {n : ℕ} (p : Peer) → length p.reads ≤ n → Within n (handle_ping p)
unfolding handle_ping
handle_ping-Within p h =
    then_done-Within (write_all (codes "PONG\n") p) _ (write_all-Within (codes "PONG\n") p h)
      (λ u q k. then_done-Within (read 1024 q) _ (read-Within 1024 q k) (answered-Within q.now))

pub handle_quit-Within : {n : ℕ} (p : Peer) → length p.reads ≤ n → Within n (handle_quit p)
unfolding handle_quit
handle_quit-Within p h = write_all-Within (codes "BYE\n") p h
