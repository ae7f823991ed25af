-- ===== src/Rmbt/Within/Upload.antt =====
-- The reads that are left behind PUT and PUTNORESULT of the older server (src/tokio_server/handlers/put.rs,
-- src/tokio_server/handlers/put_no_result.rs).
use nettest.Common.{
  ℕ, ◌+◌, ◌-◌, ◌≤◌, ◌==◌, true, false, Bool, List, [], ◌∷◌, Option, none, some, Bytes, codes, take,
  length, if_cases, arith, ap, ◌≡◌, refl,
}
use nettest.Text.{parse_u64, words}
use nettest.Chunks.{min_chunk_size}
use nettest.Rmbt.{
  Peer, Write, sends, write_breaks, write_by, write_all, Read, arrives, peer_gone, read_breaks,
}
use nettest.Rmbt.GetChunks.{in_range, time_line, resp_err}
use nettest.Rmbt.Put.{
  Upload, Uploaded, over, stalled, bytes_line, peer_of, reported, goes_on, received, put_loop,
  started, last_report, uploaded, refuse, of_size, put_parts, no_result_parts, handle_put,
  handle_put_no_result,
}
use nettest.Rmbt.Within.{Within, then_done-Within, write_all-Within}

write_by-reads :
    (bs : Bytes) (ws : List Write) (p : Peer) → (peer_of (write_by bs ws p)).reads ≡ p.reads
write_by-reads bs [] p = refl
write_by-reads bs (sends t ∷ ws) p = refl
write_by-reads bs (write_breaks t m ∷ ws) p = refl

pub write_all-reads : (bs : Bytes) (p : Peer) → (peer_of (write_all bs p)).reads ≡ p.reads
unfolding write_all
write_all-reads bs p = write_by-reads bs p.writes p

abbrev Few : ℕ → Uploaded → Type 0
Few n (over u) = length u.peer.reads ≤ n
Few n (stalled u) = u.peer.reads ≡ []

abbrev pub Left : List Read → Upload × Bool → Type 0
Left rs (u, more) = u.peer.reads ≡ rs

module _ (size start : ℕ) (report : Bool) where
  reported-Left : (u : Upload) → Left u.peer.reads (reported size start report u)
  reported-Left u =
      if_cases (Left u.peer.reads) report
        (λ e. write_all-reads (bytes_line (u.peer.now - start) u.total_bytes) u.peer) (λ e. refl)

  goes_on-Left :
      (rs : List Read) (v : Upload × Bool) → Left rs v → Left rs (goes_on size start report v)
  goes_on-Left rs (u, true) h = h
  goes_on-Left rs (u, false) h = h

  pub received-Left :
      (t : ℕ) (bs : Bytes) (rs : List Read) (u : Upload)
      → Left rs (received size start report t bs rs u)
  received-Left t bs rs u =
      if_cases (Left rs) (length (take (size - u.bytes_read) bs) == 0) (λ e. refl)
        (λ f.
          if_cases (Left rs) (u.bytes_read + length (take (size - u.bytes_read) bs) == size)
            (λ e. goes_on-Left rs _ (reported-Left _)) (λ e. refl))

  module _ {n : ℕ} where
    more-Within :
        (rs : List Read) (v : Upload × Bool)
        → Left rs v
        → length rs ≤ n
        → ((u : Upload) → u.peer.reads ≡ rs → Few n (put_loop size start report rs u))
        → Few n (elim (v.1) [ true ↦ put_loop size start report rs v.0 | false ↦ over v.0 ])
    more-Within rs (u, true) e h k = k u e
    more-Within rs (u, false) e h k = omega (arith, ap length e, h)

    put_loop-Within :
        (rs : List Read) (u : Upload)
        → length rs ≤ n
        → u.peer.reads ≡ rs
        → Few n (put_loop size start report rs u)
    unfolding put_loop
    put_loop-Within [] u h e = e
    put_loop-Within (peer_gone t ∷ rs) u h e = omega (arith, h)
    put_loop-Within (read_breaks t ∷ rs) u h e = omega (arith, h)
    put_loop-Within (arrives t bs ∷ rs) u h e =
        let few : length rs ≤ n = omega (arith, h) in
        more-Within rs (received size start report t bs rs u) (received-Left t bs rs u) few
          (λ v l. put_loop-Within rs v few l)

last_report-Within : (m start : ℕ) (v : Uploaded) → Few m v → Within m (last_report start v)
last_report-Within m start (stalled u) h = h
last_report-Within m start (over u) h =
    omega (arith, ap length (write_all-reads (time_line (u.peer.now - start)) u.peer), h)

module _ {n : ℕ} where
  uploaded-Within :
      (report : Bool) (size : ℕ) (p : Peer) → length p.reads ≤ n → Within n (uploaded report size p)
  uploaded-Within report size p h =
      then_done-Within (write_all (codes "OK\n") p) _ (write_all-Within (codes "OK\n") p h)
        (λ u q k.
          last_report-Within n q.now (put_loop size q.now report q.reads (started size q))
            (put_loop-Within size q.now report q.reads (started size q) k refl))

  refuse-Within : (p : Peer) → length p.reads ≤ n → Within n (refuse p)
  refuse-Within p h =
      then_done-Within (write_all resp_err p) _ (write_all-Within resp_err p h) (λ u q k. tt)

  of_size-Within :
      (report : Bool) (size : Option ℕ) (p : Peer)
      → length p.reads ≤ n
      → Within n (of_size report size p)
  of_size-Within report none p h = refuse-Within p h
  of_size-Within report (some size) p h = uploaded-Within report size p h

  put_parts-Within : (ws : List Bytes) (p : Peer) → length p.reads ≤ n → Within n (put_parts ws p)
  put_parts-Within [] p h = uploaded-Within true min_chunk_size p h
  put_parts-Within (a ∷ []) p h = uploaded-Within true min_chunk_size p h
  put_parts-Within (a ∷ b ∷ rest) p h = of_size-Within true (in_range (parse_u64 b)) p h

  pub handle_put-Within : (c : Bytes) (p : Peer) → length p.reads ≤ n → Within n (handle_put c p)
  unfolding handle_put
  handle_put-Within c p h = put_parts-Within (words c) p h

  no_result_parts-Within :
      (ws : List Bytes) (p : Peer) → length p.reads ≤ n → Within n (no_result_parts ws p)
  no_result_parts-Within [] p h = uploaded-Within false min_chunk_size p h
  no_result_parts-Within (a ∷ []) p h = uploaded-Within false min_chunk_size p h
  no_result_parts-Within (a ∷ b ∷ []) p h = of_size-Within false (in_range (parse_u64 b)) p h
  no_result_parts-Within (a ∷ b ∷ c ∷ rest) p h = refuse-Within p h

  pub handle_put_no_result-Within :
      (c : Bytes) (p : Peer) → length p.reads ≤ n → Within n (handle_put_no_result c p)
  unfolding handle_put_no_result
  handle_put_no_result-Within c p h = no_result_parts-Within (words c) p h
