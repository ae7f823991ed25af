-- ===== src/Rmbt.antt =====
-- The older server (src/tokio_server): a connection is served by calls that wait, one after the other.
--
-- The operating system is a script, as in Net: what the reads and the writes of whole messages will
-- answer, each with its time. A read behind the script never returns, since no read has a time limit;
-- a write behind it succeeds at once and takes no time.
pub mod RandomBuffer
pub mod GetChunks
pub mod Ping
pub mod GetTime
pub mod Put
pub mod Within
pub mod Connection
use nettest.Common.{ℕ, zero, suc, List, [], ◌∷◌, ◌++◌, Bytes, take}

-- What a read returns: bytes, none of them at the end of the stream, a loss of the connection
-- (`ConnectionReset`, `ConnectionAborted`, `BrokenPipe`), or another error.
pub data Read : Type 0 where
  arrives : ℕ → Bytes → Read
  peer_gone read_breaks : ℕ → Read

-- What `write_all` returns: all bytes are out, or an error behind some of them.
pub data Write : Type 0 where
  sends : ℕ → Write
  write_breaks : ℕ → ℕ → Write

pub record Peer : Type 0 where
  pub reads : List Read
  pub writes : List Write
  pub sent : Bytes
  pub now : ℕ

-- `Result` with the stream that is left; a lost connection is an error that `handle` tells apart. A call
-- may also wait for a peer that is silent, or write as long as the script has no time for it.
pub data Done (A : Type 0) : Type 0 where
  done : A → Peer → Done A
  lost broken waits writes_on : Peer → Done A

-- `e?`, and what follows it.
unfoldable pub then_done : {A B : Type 0} → Done A → (A → Peer → Done B) → Done B
then_done (done a p) k = k a p
then_done (lost p) k = lost p
then_done (broken p) k = broken p
then_done (waits p) k = waits p
then_done (writes_on p) k = writes_on p

abbrev pub write_by : Bytes → List Write → Peer → Done Unit
write_by bs [] p = done tt (record p { sent = p.sent ++ bs })
write_by bs (sends t ∷ ws) p = done tt (record p { sent = p.sent ++ bs; writes = ws; now = t })
write_by bs (write_breaks t n ∷ ws) p =
    broken (record p { sent = p.sent ++ take n bs; writes = ws; now = t })

-- `stream.write_all(bs).await`.
unfoldable pub write_all : Bytes → Peer → Done Unit
write_all bs p = write_by bs p.writes p

-- `stream.write(bs).await`: an error behind some bytes is one of the next call.
abbrev pub write_some : Bytes → List Write → Peer → Done Unit
write_some bs [] p = done tt (record p { sent = p.sent ++ bs })
write_some bs (sends t ∷ ws) p = done tt (record p { sent = p.sent ++ bs; writes = ws; now = t })
write_some bs (write_breaks t zero ∷ ws) p = broken (record p { writes = ws; now = t })
write_some bs (write_breaks t (suc n) ∷ ws) p =
    done tt (record p { sent = p.sent ++ take (suc n) bs; writes = ws; now = t })

unfoldable pub write : Bytes → Peer → Done Unit
write bs p = write_some bs p.writes p

-- `stream.flush().await`.
abbrev pub flush : Peer → Done Unit
flush p = write_all [] p

abbrev pub read_by : ℕ → List Read → Peer → Done Bytes
read_by room [] p = waits p
read_by room (arrives t bs ∷ rs) p = done (take room bs) (record p { reads = rs; now = t })
read_by room (peer_gone t ∷ rs) p = lost (record p { reads = rs; now = t })
read_by room (read_breaks t ∷ rs) p = broken (record p { reads = rs; now = t })

-- `stream.read(&mut buffer).await` into a buffer of a size.
unfoldable pub read : ℕ → Peer → Done Bytes
read room p = read_by room p.reads p
