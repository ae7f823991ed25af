-- ===== src/Rmbt/Put/Counts.antt =====
-- How the uploads of the older server count (src/tokio_server/handlers/put.rs,
-- src/tokio_server/handlers/put_no_result.rs).
use nettest.Common.{
  ◌++◌, ap, refl, ℕ, ◌+◌, ◌-◌, ◌%◌, ◌≤◌, ◌<◌, ◌==◌, true, false, Bool, List, [], ◌∷◌, Bytes, length,
  take, length-take, splice, if_cases, ==_iff, ◌≡◌, sym, ◌∙◌, arith,
}
use native.Mathlib.Nat.{mod-add-mod, mod_self, mod-eq_of_lt, zero-add}
use nettest.Server.Put.Counts.{length-splice}
use nettest.Rmbt.{Read, arrives, peer_gone, read_breaks}
use nettest.Rmbt.Within.Upload.{write_all-reads}
use nettest.Rmbt.Put.{
  Upload, Uploaded, over, stalled, bytes_line, put_loop, received, goes_on, reported,
}

-- Behind a round of reads, the bytes of whole chunks have been counted, a chunk that is not complete is
-- not counted, and the buffer has its size.
pub record CountsChunks (size : ℕ) (u : Upload) : Type 0 where
  pub whole : u.total_bytes % size ≡ 0
  pub partial : u.bytes_read < size
  pub room : length u.buffer ≡ size

whole_chunks : {size : ℕ} (total n : ℕ) → n ≡ size → total % size ≡ 0 → (total + n) % size ≡ 0
whole_chunks {size} total n e h =
    sym (mod-add-mod total size n) ∙ rw (h, e, zero-add size) (mod_self size)

-- The bytes that reads bring.
abbrev pub bytes_in : List Read → ℕ
bytes_in [] = 0
bytes_in (arrives t bs ∷ rs) = length bs + bytes_in rs
bytes_in (peer_gone t ∷ rs) = bytes_in rs
bytes_in (read_breaks t ∷ rs) = bytes_in rs

-- A read brings no more bytes than there is room for behind a position in the buffer.
abbrev pub Fits : ℕ → ℕ → List Read → Type 0
Fits size pos [] = Unit
Fits size pos (arrives t bs ∷ rs) =
    (pos + length bs ≤ size) × Fits size ((pos + length bs) % size) rs
Fits size pos (peer_gone t ∷ rs) = Unit
Fits size pos (read_breaks t ∷ rs) = Unit

abbrev pub final : Uploaded → Upload
final (over u) = u
final (stalled u) = u

-- How an upload that has counted so many bytes is left behind the reads: those that were made have
-- brought what is counted now, in whole chunks and in the chunk that is not complete.
abbrev pub Counts : ℕ → ℕ → List Read → Uploaded → Type 0
Counts size before rs v =
    CountsChunks size (final v)
    × (made : List Read) × (rs ≡ made ++ (final v).peer.reads)
    × ((final v).total_bytes + (final v).bytes_read ≡ before + bytes_in made)

-- A round with a read of so many bytes.
record Moved (size : ℕ) (u : Upload) (n : ℕ) (rs : List Read) (v : Upload) : Type 0 where
  counts : CountsChunks size v
  left : v.peer.reads ≡ rs
  bytes : v.total_bytes + v.bytes_read ≡ u.total_bytes + u.bytes_read + n
  position : v.bytes_read ≡ (u.bytes_read + n) % size

abbrev MovedTo : (size : ℕ) → Upload → ℕ → List Read → Upload × Bool → Type 0
MovedTo size u n rs (v, more) = Moved size u n rs v

module _ (size start : ℕ) (report : Bool) (pos : 0 < size) where
  reported-Moved :
      (u v : Upload) (n : ℕ) (rs : List Read)
      → Moved size u n rs v
      → MovedTo size u n rs (reported size start report v)
  reported-Moved u v n rs h =
      if_cases (MovedTo size u n rs) report
        (λ e. record {
          counts = record {
            whole = h.counts.whole;
            partial = h.counts.partial;
            room = h.counts.room;
          };
          left = write_all-reads (bytes_line (v.peer.now - start) v.total_bytes) v.peer ∙ h.left;
          bytes = h.bytes;
          position = h.position;
        })
        (λ e. h)

  goes_on-Moved :
      (u : Upload) (n : ℕ) (rs : List Read) (r : Upload × Bool)
      → MovedTo size u n rs r
      → MovedTo size u n rs (goes_on size start report r)
  goes_on-Moved u n rs (v, true) h = h
  goes_on-Moved u n rs (v, false) h = h

  received-Moved :
      (t : ℕ) (bs : Bytes) (rs : List Read) (u : Upload)
      → CountsChunks size u
      → u.bytes_read + length bs ≤ size
      → MovedTo size u (length bs) rs (received size start report t bs rs u)
  received-Moved t bs rs u h k =
      let got = take (size - u.bytes_read) bs in
      let all : length got ≡ length bs =
        omega (arith, length-take (size - u.bytes_read) bs, k, h.partial) in
      let fits : length (splice u.bytes_read got u.buffer) ≡ size =
        length-splice u.bytes_read got u.buffer (omega (arith, h.room, k, all)) ∙ h.room in
      if_cases (MovedTo size u (length bs) rs) (length got == 0)
        (λ e.
          let none_got = (==_iff (length got) 0).0 e in
          record {
            counts = record {
              whole = h.whole;
              partial = omega (arith, none_got, h.partial);
              room = fits;
            };
            left = refl;
            bytes = omega (arith, all);
            position =
                omega (arith, all) ∙ sym (mod-eq_of_lt (omega (arith, none_got, all, h.partial)));
          })
        (λ f.
          if_cases (MovedTo size u (length bs) rs) (u.bytes_read + length got == size)
            (λ e.
              let full = (==_iff (u.bytes_read + length got) size).0 e in
              goes_on-Moved u (length bs) rs _ (
                reported-Moved u _ (length bs) rs (record {
                  counts = record {
                    whole = whole_chunks u.total_bytes _ full h.whole;
                    partial = pos;
                    room = fits;
                  };
                  left = refl;
                  bytes = omega (arith, all);
                  position = sym (ap (λ n. n % size) (omega (arith, all, full)) ∙ mod_self size);
                })))
            (λ e.
              let some_left : u.bytes_read + length bs < size = ground (arith, all, k) in
              record {
                counts = record {
                  whole = h.whole;
                  partial = omega (arith, all, some_left);
                  room = fits;
                };
                left = refl;
                bytes = omega (arith, all);
                position = omega (arith, all) ∙ sym (mod-eq_of_lt some_left);
              }))

  more-Counts :
      (t : ℕ) (bs : Bytes) (rs : List Read) (u : Upload) (v : Upload × Bool)
      → MovedTo size u (length bs) rs v
      → Fits size ((u.bytes_read + length bs) % size) rs
      → ((w : Upload)
          → CountsChunks size w
          → Fits size w.bytes_read rs
          → w.peer.reads ≡ rs
          → Counts size (w.total_bytes + w.bytes_read) rs (put_loop size start report rs w))
      → Counts size
          (u.total_bytes + u.bytes_read)
          (arrives t bs ∷ rs)
          (elim (v.1) [ true ↦ put_loop size start report rs v.0 | false ↦ over v.0 ])
  more-Counts t bs rs u (v, true) h k next =
      let later = next v h.counts (rw h.position k) h.left in
      (
        later.0,
        arrives t bs ∷ later.1,
        ap (λ ts. arrives t bs ∷ ts) later.2,
        omega (arith, later.3, h.bytes),
      )
  more-Counts t bs rs u (v, false) h k next = (
    h.counts,
    arrives t bs ∷ [],
    ap (λ ts. arrives t bs ∷ ts) (sym h.left),
    omega (arith, h.bytes),
  )

  -- An upload that has counted whole chunks and holds less than a chunk that is not counted, behind
  -- whatever reads that fit their room: the loop is left with such a count, in a buffer of the same
  -- size, and the bytes counted and those held are those of before and all that its reads have
  -- brought, which are the first of the reads to come.
  pub put_loop-Counts :
      (rs : List Read) (u : Upload)
      → CountsChunks size u
      → Fits size u.bytes_read rs
      → u.peer.reads ≡ rs
      → Counts size (u.total_bytes + u.bytes_read) rs (put_loop size start report rs u)
  unfolding put_loop
  put_loop-Counts [] u h k e = (h, [], sym e, omega arith)
  put_loop-Counts (peer_gone t ∷ rs) u h k e = (
    record { whole = h.whole; partial = h.partial; room = h.room },
    peer_gone t ∷ [],
    refl,
    omega arith,
  )
  put_loop-Counts (read_breaks t ∷ rs) u h k e = (
    record { whole = h.whole; partial = h.partial; room = h.room },
    read_breaks t ∷ [],
    refl,
    omega arith,
  )
  put_loop-Counts (arrives t bs ∷ rs) u h k e =
      more-Counts t bs rs u (received size start report t bs rs u) (received-Moved t bs rs u h k.0)
        k.1 (put_loop-Counts rs)
