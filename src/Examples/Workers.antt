-- ===== src/Examples/Workers.antt =====
-- The theorems on the workers at a concrete run of a server with one worker.
use nettest.Common.{
  ℕ, ◌≤◌, true, false, List, [], ◌∷◌, none, codes, length, replicate, length-replicate, All, arith,
  ◌≡◌, refl,
}
use nettest.Chunks.{Filler}
use nettest.Net.{
  Stream, tcp, both, arrive, accept, reregister, reregister_by, read, read_upto, write,
}
use nettest.Server.Handshake.{
  Upgrades, PollAnswer, polled, shake_events, shake_loop, respond, finish,
  handle_greeting_receive_connection_type,
}
use nettest.Server.Handshake.Registered.{Ready, handle_greeting_receive_connection_type-Ready}
use nettest.Server.Worker.{
  ConnectionType, Worker, Shared, new_worker, at_top, holding, modify, insert, remove,
  take_connection, increased,
}
use nettest.Server.Worker.Round.{Settling, settle}
use nettest.Server.Worker.System.{System, initial, Reach, begin, accepts, takes, settles, processes}
use nettest.Server.Worker.Order.{InProtocol, accepted_in_order, worker_serves}
use nettest.Server.Worker.Progress.{after_poll, after_take, silent_worker_takes}

abbrev no_bytes : Filler
no_bytes = record {
  fill_bytes = λ _ n. replicate n 0;
  length-fill_bytes = λ _ n. length-replicate n 0;
}

abbrev http : Upgrades
http = record { is_websocket = λ r. false; upgrade = λ r s. none; close = λ s. true }

abbrev asking : Stream
asking = record {
  kind = tcp;
  reads = arrive 2 (codes "GET / HTTP/1.1\r\n") ∷ arrive 4 (codes "\r\n") ∷ [];
  writes = accept 4 200 ∷ [];
  registrations = [];
  flushes = [];
  sent = [];
  now = 1;
  interest = both;
}

abbrev two_polls : List PollAnswer
two_polls = polled 1 2 (true ∷ []) ∷ polled 3 4 (true ∷ []) ∷ []

handle_greeting_receive_connection_type-Ready_example :
    Ready http (handle_greeting_receive_connection_type http two_polls asking)
handle_greeting_receive_connection_type-Ready_example =
    handle_greeting_receive_connection_type-Ready http two_polls asking

abbrev upgrading : Settling
upgrading = record { new_rustls_server = λ s. none; polls = two_polls; now = 5 }

abbrev asked : ConnectionType
asked = ConnectionType.tcp asking

-- One connection is accepted, taken and settled; another one waits.
abbrev with_one : System
with_one = record (initial 1) { shared = record (initial 1).shared { global_queue = asked ∷ [] } }

abbrev with_taken : System
with_taken = after_take 0 with_one

abbrev with_settled : System
with_settled = nettest.Server.Worker.System.put with_taken 0 (record {
  worker = settle no_bytes http upgrading asked (with_taken.workers 0);
  shared = with_taken.shared;
})

abbrev with_waiting : System
with_waiting = record with_settled {
  shared = nettest.Server.Worker.handle_connection false asking with_settled.shared;
}

waiting : Reach no_bytes http 1 with_waiting (asked ∷ asked ∷ []) (asked ∷ [])
unfolding take_connection modify
waiting = accepts false asking (
    settles 0 upgrading asked (omega arith) refl
      (takes 0 (omega arith) refl (accepts false asking begin)))

accepted_in_order_example : asked ∷ with_waiting.shared.global_queue ≡ asked ∷ asked ∷ []
accepted_in_order_example =
    accepted_in_order no_bytes http 1 with_waiting (asked ∷ asked ∷ []) (asked ∷ []) waiting

worker_serves_example :
    (length (with_waiting.workers 0).connections ≤ 1)
    × All (InProtocol no_bytes http 1) (with_waiting.workers 0).connections
worker_serves_example =
    worker_serves no_bytes http 1 with_waiting (asked ∷ asked ∷ []) (asked ∷ []) waiting 0

abbrev much_later : ℕ
much_later = 20000000000

silent_worker_takes_example :
    Reach no_bytes http 1
      (after_take 0 (after_poll no_bytes 0 much_later with_waiting))
      (asked ∷ asked ∷ [])
      (asked ∷ asked ∷ [])
    × ((after_take 0 (after_poll no_bytes 0 much_later with_waiting)).shared.global_queue ≡ [])
    × (((after_take 0 (after_poll no_bytes 0 much_later with_waiting)).workers 0).stage
        ≡ holding asked)
unfolding take_connection modify settle reregister reregister_by
    handle_greeting_receive_connection_type shake_loop shake_events read read_upto respond finish
    write insert remove
silent_worker_takes_example =
    silent_worker_takes no_bytes http 1 with_waiting (asked ∷ asked ∷ []) (asked ∷ []) [] asked 0
      much_later waiting (omega arith) refl (omega arith, tt) refl
