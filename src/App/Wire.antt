-- ===== src/App/Wire.antt =====
-- app/examples: the datagrams between a client and a server. postcard's encodings are those of
-- App/Messages, with what `serialize_unit` writes as a parameter.
pub mod Delivery
use flip_flop_protocol.Common.{ℕ, Option, none, some, List, take, length, leb, if◌then◌else◌}
use flip_flop_protocol.Common.Result.{Result, ok, err}
use flip_flop_protocol.Common.Text.{◌>>=◌}
use flip_flop_protocol.App.{NoEe, EventOf, EventReply, Serde}
use flip_flop_protocol.App.Messages.{
  serialise_request, deserialise_request, serialise_reply, deserialise_reply,
}
use flip_flop_protocol.App.Server.{Entry, Server, Command, Event, CircularQueue, reply}
use flip_flop_protocol.App.Client.{Client, request_of, receive_reply}

abbrev pub max_datagram_size : ℕ
max_datagram_size = 32

-- `postcard::to_slice` on the buffer for sending: `none` is its error.
abbrev pub to_slice : {X : Type 0} → Result X (List ℕ) → Option (List ℕ)
to_slice (ok d) = if leb (length d) max_datagram_size then some d else none
to_slice (err x) = none

-- What `recv_from` leaves of a datagram in the buffer for receiving.
abbrev pub recv_buf : List ℕ → List ℕ
recv_buf d = take max_datagram_size d

module _ {X : Type 0} (serialize_unit : Result X (List ℕ)) (offsets : Serde X (Option ℕ))
    (commands : Serde X Command) where
  unfoldable pub send_request : Client → Option (List ℕ)
  send_request c = to_slice (serialise_request offsets commands serialize_unit (request_of c))

  module _ (ticks : Serde X ℕ) (events : Serde X (EventOf Event NoEe)) {T Q : Type 0}
      (queue : CircularQueue Q (Entry T)) (duration_since : T → ℕ) where
    -- The server's branch on a datagram: what it sends.
    unfoldable pub receive_datagram : Server Q → T → List ℕ → Option (List ℕ)
    receive_datagram s now d = elim (deserialise_request offsets commands (recv_buf d)) [
      | ok request ↦
          to_slice
            (serialise_reply ticks events serialize_unit (reply queue duration_since s request now))
      | err x ↦ none
    ]

-- The client's round behind its request: `none` is a timeout.
module _ {X : Type 0} (ticks : Serde X ℕ) (events : Serde X (EventOf Event NoEe)) where
  unfoldable pub read_reply : Option (List ℕ) → Option (EventReply (EventOf Event NoEe))
  read_reply none = none
  read_reply (some d) = elim (deserialise_reply ticks events (recv_buf d)) [
    | ok r ↦ some r
    | err x ↦ none
  ]

  unfoldable pub receive_reply_datagram : Client → Option (List ℕ) → Client
  unfolding read_reply
  receive_reply_datagram c received = receive_reply c (read_reply received)

-- A poll over datagrams that arrive.
module _ {X : Type 0} (serialize_unit : Result X (List ℕ)) (offsets : Serde X (Option ℕ))
    (commands : Serde X Command) (ticks : Serde X ℕ) (events : Serde X (EventOf Event NoEe))
    {T Q : Type 0} (queue : CircularQueue Q (Entry T)) (duration_since : T → ℕ) where
  unfoldable pub exchange_datagrams : Server Q → T → Client → Client
  unfolding send_request receive_datagram receive_reply_datagram
  exchange_datagrams s now c = receive_reply_datagram ticks events c (
      send_request serialize_unit offsets commands c
      >>= receive_datagram serialize_unit offsets commands ticks events queue duration_since s now)
