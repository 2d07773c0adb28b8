-- ===== src/App/Wire/Delivery/Examples.antt =====
-- A poll over datagrams at a concrete input, with the stand-ins of App/Toy.
use flip_flop_protocol.Common.{ℕ, ◌≤◌, ◌≡◌, refl, arith, true, Option, none, some, [], ◌∷◌, length}
use flip_flop_protocol.Common.Result.{ok}
use flip_flop_protocol.App.{
  NoEe, EventOf, logged, ephemeral, recovery, event_reply, deserialise_last_field,
  serialise_last_field,
}
use flip_flop_protocol.App.Messages.{serialise_request, deserialise_request, serialise_reply}
use flip_flop_protocol.App.Server.{
  Command, some_command, Event, some_event, new_server, receive_event, select_event, reply,
}
use flip_flop_protocol.App.Client.{Client, request_of}
use flip_flop_protocol.App.Exchange.{exchange}
use flip_flop_protocol.App.Wire.{send_request, receive_datagram, exchange_datagrams}
use flip_flop_protocol.App.Wire.Delivery.{IsSized, exchange_datagrams-exchange}
use flip_flop_protocol.App.Toy.{
  list_queue, list_queue-IsCircularQueue, running, running-Reachable, byte_bytes, byte_serde,
  byte_serde-IsSerde, option_bytes, option_serde, option_serde-IsSerde, command_bytes,
  command_serde, command_serde-IsSerde, event_bytes, event_serde, event_serde-IsSerde,
}

option_len : (o : Option ℕ) → length (option_bytes o) ≤ 6
option_len none = omega arith
option_len (some n) = omega arith

command_len : (c : Command) → length (command_bytes c) ≤ 1
command_len some_command = omega arith

event_len : (e : EventOf Event NoEe) → length (event_bytes e) ≤ 11
event_len (logged some_event offset) = omega arith
event_len (ephemeral e) = omega arith
event_len (recovery start end) = omega arith

toy-IsSized : IsSized option_bytes command_bytes byte_bytes event_bytes
toy-IsSized = record {
  offset_len = λ o h. option_len o;
  command_len = command_len;
  tick_len = λ t h. omega arith;
  event_len = λ e h. event_len e;
}

-- Offsets 5, 6 and 7 are in the log, and the client is at 6.
abbrev caller : Client
caller = record {
  last_event_offset = some 6;
  event_count = 2;
  init_mode = true;
  recovery_event_offset = none;
}

exchange_datagrams-exchange_example :
    exchange_datagrams
      (ok [])
      option_serde
      command_serde
      byte_serde
      event_serde
      list_queue
      (λ t. 9)
      running
      0
      caller
    ≡ exchange list_queue (λ t. 9) running 0 caller
exchange_datagrams-exchange_example =
    exchange_datagrams-exchange option_serde-IsSerde command_serde-IsSerde byte_serde-IsSerde
      event_serde-IsSerde toy-IsSized list_queue list_queue-IsCircularQueue (λ t. 9)
      (λ t. omega arith) tt tt running 0 caller refl refl running-Reachable (omega arith)

request_sent : send_request (ok []) option_serde command_serde caller ≡ some (1 ∷ 6 ∷ [])
unfolding send_request serialise_request serialise_last_field request_of
request_sent = refl

event_sent :
    receive_datagram
      (ok [])
      option_serde
      command_serde
      byte_serde
      event_serde
      list_queue
      (λ t. 9)
      running
      0
      (1 ∷ 6 ∷ [])
    ≡ some (9 ∷ 0 ∷ 0 ∷ 7 ∷ [])
unfolding receive_datagram deserialise_request deserialise_last_field serialise_reply
    serialise_last_field reply select_event event_reply receive_event new_server
event_sent = refl
