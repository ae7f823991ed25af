-- ===== src/Rmbt/Within.antt =====
-- The reads that are left behind the calls of the older server (src/tokio_server/stream/mod.rs).
pub mod Download
pub mod Upload
use nettest.Common.{
  ℕ, zero, suc, ◌+◌, ◌-◌, ◌≤◌, ◌==◌, ◌&&◌, leb, ltb, true, false, Bool, List, [], ◌∷◌, ◌++◌, Option,
  none, some, Bytes, codes, length, take, bytes_eq, if◌then◌else◌, if_cases, arith, ◌≡◌, refl,
}
use nettest.Text.{trim, parse_u64, words}
use nettest.Chunks.{min_chunk_size}
use nettest.Rmbt.{
  Peer, Done, done, lost, broken, waits, writes_on, then_done, Write, sends, write_breaks, write_by,
  write_some, write, write_all, Read, arrives, peer_gone, read_breaks, read_by, read, flush,
}
use nettest.Rmbt.RandomBuffer.{RandomBuffer, generate_chunks}
use nettest.Rmbt.GetChunks.{send_chunks, report, confirm, transfer, in_range, time_line, resp_err}

-- Where the code goes on, so many reads are left at most, and where it waits, none.
abbrev pub Within : {A : Type 0} → ℕ → Done A → Type 0
Within n (done a p) = length p.reads ≤ n
Within n (lost p) = Unit
Within n (broken p) = Unit
Within n (waits p) = p.reads ≡ []
Within n (writes_on p) = Unit

pub if-Within :
    {A : Type 0} (n : ℕ) (b : Bool) (o r : Done A)
    → Within n o
    → Within n r
    → Within n (if b then o else r)
if-Within n b o r h k = if_cases (Within n) b (λ e. h) (λ e. k)

module _ {n : ℕ} where
  pub then_done-Within :
      {A B : Type 0} (o : Done A) (k : A → Peer → Done B)
      → Within n o
      → ((a : A) (q : Peer) → length q.reads ≤ n → Within n (k a q))
      → Within n (then_done o k)
  unfolding then_done
  then_done-Within (done a p) k h f = f a p h
  then_done-Within (lost p) k h f = tt
  then_done-Within (broken p) k h f = tt
  then_done-Within (waits p) k h f = h
  then_done-Within (writes_on p) k h f = tt

  pub write_by-Within :
      (bs : Bytes) (ws : List Write) (p : Peer) → length p.reads ≤ n → Within n (write_by bs ws p)
  write_by-Within bs [] p h = h
  write_by-Within bs (sends t ∷ ws) p h = h
  write_by-Within bs (write_breaks t m ∷ ws) p h = tt

  pub write_all-Within : (bs : Bytes) (p : Peer) → length p.reads ≤ n → Within n (write_all bs p)
  unfolding write_all
  write_all-Within bs p h = write_by-Within bs p.writes p h

  write_some-Within :
      (bs : Bytes) (ws : List Write) (p : Peer) → length p.reads ≤ n → Within n (write_some bs ws p)
  write_some-Within bs [] p h = h
  write_some-Within bs (sends t ∷ ws) p h = h
  write_some-Within bs (write_breaks t zero ∷ ws) p h = tt
  write_some-Within bs (write_breaks t (suc m) ∷ ws) p h = h

  pub write-Within : (bs : Bytes) (p : Peer) → length p.reads ≤ n → Within n (write bs p)
  unfolding write
  write-Within bs p h = write_some-Within bs p.writes p h

  read_by-Within :
      (room : ℕ) (rs : List Read) (p : Peer)
      → p.reads ≡ rs
      → length rs ≤ n
      → Within n (read_by room rs p)
  read_by-Within room [] p e h = e
  read_by-Within room (arrives t bs ∷ rs) p e h = omega (arith, h)
  read_by-Within room (peer_gone t ∷ rs) p e h = tt
  read_by-Within room (read_breaks t ∷ rs) p e h = tt

  pub read-Within : (room : ℕ) (p : Peer) → length p.reads ≤ n → Within n (read room p)
  unfolding read
  read-Within room p h = read_by-Within room p.reads p refl h

  report-Within :
      (t : ℕ) (answer : Bytes) (p : Peer) → length p.reads ≤ n → Within n (report t answer p)
  report-Within t answer p h =
      if-Within n (bytes_eq (trim answer) (codes "OK")) _ _ (write_all-Within (time_line t) p h) tt

  pub confirm-Within : (t : ℕ) (p : Peer) → length p.reads ≤ n → Within n (confirm t p)
  confirm-Within t p h =
      then_done-Within (read 1024 p) (report t) (read-Within 1024 p h) (report-Within t)

  pub send_chunks-Within :
      (cs : List Bytes) (p : Peer) → length p.reads ≤ n → Within n (send_chunks cs p)
  unfolding send_chunks
  send_chunks-Within [] p h = h
  send_chunks-Within (c ∷ cs) p h =
      then_done-Within (write_all c p) (λ u q. send_chunks cs q) (write_all-Within c p h)
        (λ u q k. send_chunks-Within cs q k)

  pub finish-Within :
      (start : ℕ) (p : Peer)
      → length p.reads ≤ n
      → Within n (then_done (flush p) (λ v r. confirm (r.now - start) r))
  finish-Within start p h =
      then_done-Within (flush p) (λ v r. confirm (r.now - start) r) (write_all-Within [] p h)
        (λ v r k. confirm-Within (r.now - start) r k)
