-- ===== src/App/Client.antt =====
-- app/examples/client/main.rs: what a client asks for, and what it makes of a reply.
use flip_flop_protocol.Common.{
  ℕ, ◌+◌, ◌≡◌, refl, Bool, true, Option, none, some, List, [], ◌∷◌, ◌==◌, if◌then◌else◌, not, arith,
}
use flip_flop_protocol.Common.Words.{u32}
use flip_flop_protocol.App.{CommandRequest, NoEe, EventOf, logged, ephemeral, recovery, EventReply}
use flip_flop_protocol.App.Server.{Command, some_command, Event, eq_option}

pub record Client : Type 0 where
  pub last_event_offset : Option ℕ
  pub event_count : ℕ
  pub init_mode : Bool
  pub recovery_event_offset : Option ℕ

unfoldable pub new_client : Client
new_client = record {
  last_event_offset = none;
  event_count = 0;
  init_mode = true;
  recovery_event_offset = none;
}

unfoldable pub request_of : Client → CommandRequest Command
request_of c = record {
  last_event_offset = c.last_event_offset;
  command = if c.init_mode then none else some some_command;
}

-- `match reply.event`
unfoldable pub receive_event_of : Client → Option (EventOf Event NoEe) → Client
receive_event_of c none = c
receive_event_of c (some (ephemeral _)) = c
receive_event_of c (some (logged _ offset)) = record {
  last_event_offset = some offset;
  event_count = u32 (c.event_count + 1);
  init_mode = if eq_option (some offset) c.recovery_event_offset then true else c.init_mode;
  recovery_event_offset = c.recovery_event_offset;
}
receive_event_of c (some (recovery start end)) = record {
  last_event_offset = some start;
  event_count = 0;
  init_mode = true;
  recovery_event_offset = if not (start == end) then some end else none;
}

-- A round of the loop behind the request: no reply that can be read may come.
unfoldable pub receive_reply : Client → Option (EventReply (EventOf Event NoEe)) → Client
unfolding receive_event_of
receive_reply c none = c
receive_reply c (some reply) = receive_event_of c reply.event

unfoldable pub receive_replies : Client → List (Option (EventReply (EventOf Event NoEe))) → Client
unfolding receive_reply
receive_replies c [] = c
receive_replies c (r ∷ rs) = receive_replies (receive_reply c r) rs

receive_event_of-init_mode :
    (c : Client) (event : Option (EventOf Event NoEe))
    → c.init_mode ≡ true
    → (receive_event_of c event).init_mode ≡ true
unfolding receive_event_of
receive_event_of-init_mode c none h = h
receive_event_of-init_mode c (some (ephemeral _)) h = h
receive_event_of-init_mode c (some (logged _ offset)) h = ground arith
receive_event_of-init_mode c (some (recovery start end)) h = refl

receive_reply-init_mode :
    (c : Client) (reply : Option (EventReply (EventOf Event NoEe)))
    → c.init_mode ≡ true
    → (receive_reply c reply).init_mode ≡ true
unfolding receive_reply
receive_reply-init_mode c none h = h
receive_reply-init_mode c (some reply) h = receive_event_of-init_mode c reply.event h

receive_replies-init_mode :
    (c : Client) (replies : List (Option (EventReply (EventOf Event NoEe))))
    → c.init_mode ≡ true
    → (receive_replies c replies).init_mode ≡ true
unfolding receive_replies
receive_replies-init_mode c [] h = h
receive_replies-init_mode c (r ∷ rs) h =
    receive_replies-init_mode (receive_reply c r) rs (receive_reply-init_mode c r h)

-- Whatever replies a client receives or misses from its start on, it never sends a command.
pub request_of-receive_replies :
    (replies : List (Option (EventReply (EventOf Event NoEe))))
    → (request_of (receive_replies new_client replies)).command ≡ none
unfolding request_of new_client
request_of-receive_replies replies = rw (receive_replies-init_mode new_client replies refl) refl
