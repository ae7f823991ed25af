-- ===== src/Rmbt/Connection/Token.antt =====
-- The token of a connection of the older server (src/tokio_server/connection_handler.rs).
use nettest.Common.{ℕ, List, [], ◌∷◌, ◌++◌, Option, Bytes, codes, ◌≡◌, refl}
use nettest.Rmbt.{Peer, done, then_done, write_all, read, Read, arrives}
use nettest.Rmbt.Connection.{version_line, send_greeting, handle_token, open_connection}

-- Whatever first bytes the peer sends in the place of its token, the server accepts them and goes on to
-- the chunk sizes, if nothing fails to be written.
pub open_connection_any_token :
    (version : Option ℕ) (p : Peer) (t c : ℕ) (s : Bytes) (rs : List Read)
    → p.writes ≡ []
    → p.reads ≡ arrives t (c ∷ s) ∷ rs
    → open_connection version p
      ≡ done tt (record p {
        reads = rs;
        now = t;
        sent =
            (((p.sent ++ version_line version) ++ codes "ACCEPT TOKEN QUIT\n") ++ codes "OK\n")
            ++ codes "CHUNKSIZE 4096 4096 4194304\n";
      })
unfolding open_connection send_greeting handle_token then_done write_all read
open_connection_any_token version p t c s rs w r = rw (w, r) refl
