-- ===== src/Rmbt/Connection.antt =====
-- One connection of the older server (src/tokio_server/connection_handler.rs).
pub mod Token
pub mod Ends
use nettest.Common.{
  ℕ, zero, suc, length, true, false, ◌||◌, Bool, List, [], ◌∷◌, ◌++◌, ◌==◌, if◌then◌else◌, Option,
  none, some, Bytes, codes, bytes_eq, starts_with,
}
use nettest.Text.{trim, split_terminator}
use nettest.Rmbt.{Peer, Done, done, lost, broken, waits, writes_on, then_done, write_all, read}
use nettest.Rmbt.RandomBuffer.{RandomBuffer}
use nettest.Rmbt.GetChunks.{resp_err, handle_get_chunks}
use nettest.Rmbt.Ping.{handle_ping, handle_quit}
use nettest.Rmbt.GetTime.{handle_get_time}
use nettest.Rmbt.Put.{handle_put, handle_put_no_result}

abbrev pub version_line : Option ℕ → Bytes
version_line none = codes "RMBTv1.5.0\n"
version_line (some v) = if v == 3 then codes "RMBTv0.3\n" else codes "RMBTv1.3.3\n"

unfoldable pub send_greeting : Option ℕ → Peer → Done Unit
send_greeting version p =
    then_done (write_all (version_line version) p)
      (λ u q. write_all (codes "ACCEPT TOKEN QUIT\n") q)

-- The line is read and not looked at.
abbrev pub token_read : Bytes → Peer → Done Unit
token_read [] p = broken p
token_read (c ∷ s) p = write_all (codes "OK\n") p

unfoldable pub handle_token : Peer → Done Unit
handle_token p = then_done (read 1024 p) token_read

-- What precedes the loop over the commands in `handle`.
unfoldable pub open_connection : Option ℕ → Peer → Done Unit
open_connection version p =
    then_done (send_greeting version p) (λ u q.
      then_done (handle_token q) (λ v r. write_all (codes "CHUNKSIZE 4096 4096 4194304\n") r))

abbrev pub accept_commands : Bytes
accept_commands = codes "ACCEPT GETCHUNKS GETTIME PUT PUTNORESULT PING QUIT\n"

abbrev first_line : List Bytes → Bytes
first_line [] = []
first_line (l ∷ ls) = l

-- `command.lines().next().unwrap_or("").trim()`.
abbrev pub command_of : Bytes → Bytes
command_of s = trim (first_line (split_terminator s))

-- The handler's outcome, with whether the loop over the commands goes on behind it.
abbrev pub and_then : Bool → Done Unit → Done Bool
and_then more (done u p) = done more p
and_then more (lost p) = lost p
and_then more (broken p) = broken p
and_then more (waits p) = waits p
and_then more (writes_on p) = writes_on p

module _ (random : RandomBuffer) where
  abbrev pub dispatch : Bytes → Peer → Done Bool
  dispatch c p =
      if starts_with (codes "PUT") c || starts_with (codes "PUTNORESULT") c
      then if starts_with (codes "PUTNORESULT") c
        then and_then true (handle_put_no_result c p)
        else and_then true (handle_put c p)
      else if starts_with (codes "GETTIME") c
      then and_then true (handle_get_time random c p)
      else if starts_with (codes "GETCHUNKS") c
      then and_then true (handle_get_chunks random c p)
      else if bytes_eq c (codes "PING")
      then and_then true (handle_ping p)
      else if bytes_eq c (codes "QUIT")
      then and_then false (handle_quit p)
      else and_then true (write_all (resp_err ++ c) p)

  -- The end of the stream and a lost connection end the loop without an error.
  abbrev pub commanded : Done Bytes → Done Bool
  commanded (done [] p) = done false p
  commanded (done (c ∷ s) p) = dispatch (command_of (c ∷ s)) p
  commanded (lost p) = done false p
  commanded (broken p) = broken p
  commanded (waits p) = waits p
  commanded (writes_on p) = writes_on p

  abbrev pub round : Peer → Done Bool
  round p = then_done (write_all accept_commands p) (λ u q. commanded (read 1024 q))

  abbrev pub go_on : (Peer → Option (Done Unit)) → Done Bool → Option (Done Unit)
  go_on k (done true p) = k p
  go_on k (done false p) = some (done tt p)
  go_on k (lost p) = some (lost p)
  go_on k (broken p) = some (broken p)
  go_on k (waits p) = some (waits p)
  go_on k (writes_on p) = some (writes_on p)

  -- The loop over the commands, for so many rounds at most.
  unfoldable pub command_loop : ℕ → Peer → Option (Done Unit)
  command_loop zero p = none
  command_loop (suc n) p = go_on (λ q. command_loop n q) (round p)

  abbrev pub then_commands : Done Unit → Option (Done Unit)
  then_commands (done u p) = command_loop (suc (length p.reads)) p
  then_commands (lost p) = some (lost p)
  then_commands (broken p) = some (broken p)
  then_commands (waits p) = some (waits p)
  then_commands (writes_on p) = some (writes_on p)

  -- `handle`, with one round more than there are reads to come.
  unfoldable pub handle : Option ℕ → Peer → Option (Done Unit)
  handle version p = then_commands (open_connection version p)
