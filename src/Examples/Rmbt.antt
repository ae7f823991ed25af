-- ===== src/Examples/Rmbt.antt =====
-- The theorems on the older server at concrete connections.
use nettest.Common.{
  ℕ, ◌++◌, true, List, [], ◌∷◌, some, codes, replicate, length-replicate, arith, ◌≡◌, refl, ◌∙◌,
}
use nettest.Rmbt.{sends, Peer, done, Read, arrives, peer_gone}
use nettest.Rmbt.RandomBuffer.{RandomBuffer, random_size, generate_chunks}
use nettest.Rmbt.GetChunks.{handle_get_chunks, time_line}
use nettest.Rmbt.GetChunks.Reply.{
  sending, chunks_of, flatten, get_chunks_command, generate_chunks-chunks_of,
  handle_get_chunks-sends,
}
use nettest.Rmbt.Put.{Upload, put_loop}
use nettest.Rmbt.Put.Counts.{Counts, put_loop-Counts}
use nettest.Rmbt.Connection.{open_connection, version_line}
use nettest.Rmbt.Connection.Ends.{Ends}
use nettest.Rmbt.Connection.Token.{open_connection_any_token}

-- The buffer is never computed: its bytes are too many.
equal_bytes : (n : ℕ) → n ≡ random_size → RandomBuffer
equal_bytes n e = record { contents = replicate n 7; length-contents = length-replicate n 7 ∙ e }

abbrev sevens : RandomBuffer
sevens = equal_bytes random_size refl

abbrev peer : List Read → Peer
peer rs = record { reads = rs; writes = []; sent = []; now = 5 }

generate_chunks-chunks_of_example :
    generate_chunks sevens 0xFF 8192 3 random_size ≡ chunks_of sevens 0xFF 8192 2
generate_chunks-chunks_of_example =
    generate_chunks-chunks_of sevens 0xFF 8192 2 random_size (omega arith) (omega arith)

-- The writes take a while each.
abbrev slow_peer : Peer
slow_peer = record {
  reads = arrives 40 (codes "OK\n") ∷ [];
  writes = sending (10 ∷ 20 ∷ 30 ∷ []) (sends 35 ∷ sends 50 ∷ []);
  sent = [];
  now = 5;
}

handle_get_chunks-sends_example :
    handle_get_chunks sevens (get_chunks_command 3 8192) slow_peer
    ≡ done tt (record {
      reads = [];
      writes = [];
      sent = ([] ++ flatten (chunks_of sevens 0xFF 8192 2)) ++ time_line 30;
      now = 50;
    })
handle_get_chunks-sends_example =
    handle_get_chunks-sends sevens 2 8192 40 35 50 (10 ∷ 20 ∷ 30 ∷ []) [] slow_peer [] (omega arith)
      (omega arith) (omega arith) refl refl refl

-- A chunk of four bytes in two reads, and the beginning of a chunk.
abbrev arriving : List Read
arriving = arrives 6 (1 ∷ 2 ∷ 3 ∷ []) ∷ arrives 7 (0 ∷ []) ∷ arrives 8 (6 ∷ []) ∷ peer_gone 9 ∷ []

abbrev started : Upload
started = record { peer = peer arriving; buffer = replicate 4 0; bytes_read = 0; total_bytes = 0 }

put_loop-Counts_example : Counts 4 0 arriving (put_loop 4 5 true arriving started)
put_loop-Counts_example =
    put_loop-Counts 4 5 true (omega arith) arriving started
      (record { whole = omega arith; partial = omega arith; room = refl })
      (omega arith, (omega arith, (omega arith, tt))) refl

open_connection_any_token_example :
    open_connection (some 3) (peer (arrives 6 (codes "nonsense\n") ∷ []))
    ≡ done tt (record {
      reads = [];
      writes = [];
      sent =
          ((([] ++ version_line (some 3)) ++ codes "ACCEPT TOKEN QUIT\n") ++ codes "OK\n")
          ++ codes "CHUNKSIZE 4096 4096 4194304\n";
      now = 6;
    })
open_connection_any_token_example =
    open_connection_any_token (some 3) (peer (arrives 6 (codes "nonsense\n") ∷ [])) 6 b'n'
      (codes "onsense\n") [] refl refl

-- A token, a PING that is confirmed, and the end.
abbrev talking : List Read
talking =
    arrives 6 (codes "token\n")
    ∷ arrives 7 (codes "PING\n")
    ∷ arrives 8 (codes "OK\n")
    ∷ arrives 9 (codes "QUIT\n")
    ∷ []
