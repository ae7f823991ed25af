-- ===== src/Rmbt/Put.antt =====
-- PUT and PUTNORESULT of the older server (src/tokio_server/handlers/put.rs, put_no_result.rs).
pub mod Counts
use nettest.Common.{
  ℕ, ◌+◌, ◌-◌, Bool, true, false, List, [], ◌∷◌, ◌++◌, ◌==◌, if◌then◌else◌, Option, none, some,
  Bytes, codes, length, take, get_elem?, splice, replicate,
}
use nettest.Text.{words, parse_u64, format_u64}
use nettest.Chunks.{min_chunk_size}
use nettest.Rmbt.{
  Peer, Done, done, lost, broken, waits, writes_on, then_done, write_all, Read, arrives, peer_gone,
  read_breaks,
}
use nettest.Rmbt.GetChunks.{resp_err, in_range, time_line}

-- The local variables of the loop: the stream, the buffer, the bytes in it and all bytes of complete
-- chunks.
pub record Upload : Type 0 where
  pub peer : Peer
  pub buffer : Bytes
  pub bytes_read : ℕ
  pub total_bytes : ℕ

abbrev pub bytes_line : ℕ → ℕ → Bytes
bytes_line t n =
    codes "TIME " ++ (format_u64 t ++ (codes " BYTES " ++ (format_u64 n ++ codes "\n")))

abbrev pub peer_of : Done Unit → Peer
peer_of (done u p) = p
peer_of (lost p) = p
peer_of (broken p) = p
peer_of (waits p) = p
peer_of (writes_on p) = p

abbrev pub is_done : Done Unit → Bool
is_done (done u p) = true
is_done _ = false

-- `buffer[chunk_size - 1]`.
abbrev pub terminator : ℕ → Bytes → ℕ
terminator size buffer = elim (get_elem? buffer (size - 1)) [ none ↦ 0 | some b ↦ b ]

-- How the loop leaves its variables: it is over, or its read never returns.
pub data Uploaded : Type 0 where
  over stalled : Upload → Uploaded

-- A round with what a read has left: with `report`, an intermediate report follows a chunk, and its
-- failure ends the loop. The flag says whether the loop goes on.
module _ (size start : ℕ) (report : Bool) where
  abbrev pub completed : Upload → Upload
  completed u = record u { total_bytes = u.total_bytes + u.bytes_read; bytes_read = 0 }

  abbrev pub with_report : Upload → Done Unit → Upload × Bool
  with_report u o = (record u { peer = peer_of o }, is_done o)

  abbrev pub reported : Upload → Upload × Bool
  reported u =
      if report
      then with_report u (write_all (bytes_line (u.peer.now - start) u.total_bytes) u.peer)
      else (u, true)

  abbrev pub goes_on : Upload × Bool → Upload × Bool
  goes_on (u, false) = (u, false)
  goes_on (u, true) = (u, terminator size u.buffer == 0x00)

  abbrev pub received : ℕ → Bytes → List Read → Upload → Upload × Bool
  received t bs rs u =
      let got = take (size - u.bytes_read) bs in
      let v : Upload = record {
        peer = record u.peer { reads = rs; now = t };
        buffer = splice u.bytes_read got u.buffer;
        bytes_read = u.bytes_read + length got;
        total_bytes = u.total_bytes;
      } in
      if length got == 0
      then (v, false)
      else if v.bytes_read == size
      then goes_on (reported (completed v))
      else (v, true)

  -- The two loops as one over the reads to come.
  unfoldable pub put_loop : List Read → Upload → Uploaded
  put_loop [] u = stalled u
  put_loop (peer_gone t ∷ rs) u = over (record u { peer = record u.peer { reads = rs; now = t } })
  put_loop (read_breaks t ∷ rs) u = over (record u { peer = record u.peer { reads = rs; now = t } })
  put_loop (arrives t bs ∷ rs) u =
      let v = received t bs rs u in elim (v.1) [ true ↦ put_loop rs v.0 | false ↦ over v.0 ]

abbrev pub started : ℕ → Peer → Upload
started size p = record { peer = p; buffer = replicate size 0; bytes_read = 0; total_bytes = 0 }

-- The report at the end; a failure to send it is passed over.
abbrev pub last_report : ℕ → Uploaded → Done Unit
last_report start (stalled u) = waits u.peer
last_report start (over u) = done tt (peer_of (write_all (time_line (u.peer.now - start)) u.peer))

abbrev pub uploaded : Bool → ℕ → Peer → Done Unit
uploaded report size p =
    then_done (write_all (codes "OK\n") p)
      (λ u q. last_report q.now (put_loop size q.now report q.reads (started size q)))

abbrev pub refuse : Peer → Done Unit
refuse p = then_done (write_all resp_err p) (λ u q. broken q)

abbrev pub of_size : Bool → Option ℕ → Peer → Done Unit
of_size report none p = refuse p
of_size report (some size) p = uploaded report size p

-- Behind the command's name, PUT takes a size and passes over what follows.
abbrev pub put_parts : List Bytes → Peer → Done Unit
put_parts [] p = uploaded true min_chunk_size p
put_parts (a ∷ []) p = uploaded true min_chunk_size p
put_parts (a ∷ b ∷ rest) p = of_size true (in_range (parse_u64 b)) p

unfoldable pub handle_put : Bytes → Peer → Done Unit
handle_put command p = put_parts (words command) p

abbrev pub no_result_parts : List Bytes → Peer → Done Unit
no_result_parts (a ∷ b ∷ []) p = of_size false (in_range (parse_u64 b)) p
no_result_parts (a ∷ b ∷ c ∷ rest) p = refuse p
no_result_parts ws p = uploaded false min_chunk_size p

unfoldable pub handle_put_no_result : Bytes → Peer → Done Unit
handle_put_no_result command p = no_result_parts (words command) p
