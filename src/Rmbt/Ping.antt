-- ===== src/Rmbt/Ping.antt =====
-- PING and QUIT of the older server (src/tokio_server/handlers/ping.rs, handlers/mod.rs).
use nettest.Common.{ℕ, ◌-◌, [], ◌∷◌, Bytes, codes, bytes_eq, if◌then◌else◌}
use nettest.Text.{trim}
use nettest.Rmbt.{Peer, Done, broken, then_done, write_all, read}
use nettest.Rmbt.GetChunks.{time_line}

abbrev pub answered : ℕ → Bytes → Peer → Done Unit
answered start [] p = broken p
answered start (c ∷ s) p =
    if bytes_eq (trim (c ∷ s)) (codes "OK")
    then write_all (time_line (p.now - start)) p
    else broken p

unfoldable pub handle_ping : Peer → Done Unit
handle_ping p =
    then_done (write_all (codes "PONG\n") p) (λ u q. then_done (read 1024 q) (answered q.now))

unfoldable pub handle_quit : Peer → Done Unit
handle_quit p = write_all (codes "BYE\n") p
