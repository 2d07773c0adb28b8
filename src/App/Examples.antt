-- ===== src/App/Examples.antt =====
-- The tests of app/src/lib.rs, and the theorems on the application layer at concrete inputs.
use flip_flop_protocol.Common.{ℕ, ◌≡◌, ◌≢◌, refl, arith, true, Option, none, some, List, [], ◌∷◌}
use flip_flop_protocol.Common.Result.{ok}
use flip_flop_protocol.App.{CommandRequest, NoEe, EventOf, logged, EventReply, event_reply}
use flip_flop_protocol.App.Messages.{
  serialise_request, deserialise_request, serialise_reply, deserialise_reply,
  deserialise_request-serialise_request, deserialise_reply-serialise_reply,
}
use flip_flop_protocol.App.Server.{
  Command, Event, some_event, new_server, receive_event, select_event, reply,
}
use flip_flop_protocol.App.Server.Invariant.{IsServer, Reachable-IsServer}
use flip_flop_protocol.App.Client.{
  Client, new_client, request_of, receive_event_of, receive_reply, receive_replies,
  request_of-receive_replies,
}
use flip_flop_protocol.App.Toy.{
  byte_serde, byte_serde-IsSerde, option_serde, option_serde-IsSerde, list_queue,
  list_queue-IsCircularQueue, running, running-Reachable, restarted, resumed, resumed-Reachable,
}
use flip_flop_protocol.App.Exchange.{exchange, polls}
use flip_flop_protocol.App.Exchange.CatchUp.{polls-new_client, exchange-recovery}

abbrev request_sample : CommandRequest ℕ
request_sample = record { last_event_offset = some 9; command = some 2 }

abbrev reply_sample : EventReply ℕ
reply_sample = record { delta_ticks = 10; event = none }

deserialise_request-serialise_request_example :
    (d : List ℕ) × (serialise_request option_serde byte_serde (ok []) request_sample ≡ ok d)
    × (deserialise_request option_serde byte_serde d ≡ ok request_sample)
deserialise_request-serialise_request_example =
    deserialise_request-serialise_request option_serde byte_serde option_serde-IsSerde
      byte_serde-IsSerde tt request_sample refl

deserialise_reply-serialise_reply_example :
    (d : List ℕ) × (serialise_reply byte_serde byte_serde (ok []) reply_sample ≡ ok d)
    × (deserialise_reply byte_serde byte_serde d ≡ ok reply_sample)
deserialise_reply-serialise_reply_example =
    deserialise_reply-serialise_reply byte_serde byte_serde byte_serde-IsSerde byte_serde-IsSerde tt
      reply_sample refl

abbrev asked : ℕ → CommandRequest Command
asked n = record { last_event_offset = some n; command = none }

Reachable-IsServer_example : IsServer list_queue running
Reachable-IsServer_example =
    Reachable-IsServer list_queue list_queue-IsCircularQueue running running-Reachable

polls-new_client_example :
    ((polls list_queue (λ t. t) 5 running 0 new_client).last_event_offset ≡ some 7)
    × ((polls list_queue (λ t. t) 5 running 0 new_client).event_count ≡ 3)
unfolding receive_event new_server
polls-new_client_example =
    polls-new_client list_queue (λ t. t) list_queue-IsCircularQueue running 0 5 7 running-Reachable
      refl refl 4 {oldest = record { event = some_event; offset = 5; instant = 100 }} refl
      (omega arith) (omega arith)

abbrev replies_sample : List (Option (EventReply (EventOf Event NoEe)))
replies_sample = some (record { delta_ticks = 1; event = some (logged some_event 4) }) ∷ none ∷ []

request_of-receive_replies_example :
    (request_of (receive_replies new_client replies_sample)).command ≡ none
request_of-receive_replies_example = request_of-receive_replies replies_sample

-- A client at offset 7 that polls behind the reset is told to recover from 3, and is given 4 then.
abbrev behind : Client
behind = record {
  last_event_offset = some 7;
  event_count = 3;
  init_mode = true;
  recovery_event_offset = none;
}

exchange-recovery_example : ◌≢◌ {A = ℕ} 4 3
unfolding select_event receive_event new_server exchange request_of receive_event_of receive_reply
    reply event_reply
exchange-recovery_example =
    exchange-recovery list_queue (λ t. t) list_queue-IsCircularQueue restarted resumed behind 0 1
      105 3 3 4 some_event resumed-Reachable refl refl
