-- ===== src/App/Toy.antt =====
-- Concrete stand-ins for the crates circular_queue and postcard, and states of the server of the application
-- layer's example, for the examples.
use flip_flop_protocol.Common.{
  ℕ, zero, suc, ◌≡◌, refl, arith, Option, none, some, List, [], ◌∷◌, ◌++◌, take,
}
use flip_flop_protocol.Common.Result.{Result, ok, err}
use flip_flop_protocol.App.{NoEe, EventOf, logged, ephemeral, recovery, Serde, IsSerde}
use flip_flop_protocol.App.Server.{
  Entry, Server, Command, some_command, Event, some_event, CircularQueue, IsCircularQueue,
  max_events, new_server, receive_event,
}
use flip_flop_protocol.App.Server.Invariant.{Reachable, started, received}

-- A queue of ten elements as a list, with the time as a number.
abbrev pub list_queue : CircularQueue (List (Entry ℕ)) (Entry ℕ)
list_queue = record {
  with_capacity = λ n. [];
  push = λ a q. take 10 (a ∷ q);
  clear = λ q. [];
  iter = λ q. q;
}

pub list_queue-IsCircularQueue : IsCircularQueue max_events list_queue
list_queue-IsCircularQueue = record {
  iter-with_capacity = refl;
  iter-clear = λ q. refl;
  iter-push = λ a q. refl;
}

-- Offsets 5, 6 and 7 are in the log.
abbrev pub running : Server (List (Entry ℕ))
running =
    receive_event list_queue
      (receive_event list_queue (receive_event list_queue (new_server list_queue 5) 100 1 0) 101 1
        0)
      102 1 0

pub running-Reachable : Reachable list_queue running
running-Reachable =
    received 102 1 0 (omega arith)
      (received 101 1 0 (omega arith) (received 100 1 0 (omega arith) (started 5 (omega arith))))

-- Behind a reset to offset 3.
abbrev pub restarted : Server (List (Entry ℕ))
restarted = receive_event list_queue running 103 0 3

abbrev pub resumed : Server (List (Entry ℕ))
resumed = receive_event list_queue (receive_event list_queue restarted 104 1 0) 105 1 0

pub resumed-Reachable : Reachable list_queue resumed
resumed-Reachable =
    received 105 1 0 (omega arith)
      (received 104 1 0 (omega arith) (received 103 0 3 (omega arith) running-Reachable))

-- Encodings of a byte, of an optional byte, a command and an event, in the manner of postcard.
abbrev pub byte_bytes : ℕ → List ℕ
byte_bytes n = n ∷ []

abbrev read_byte : List ℕ → Result (Unit {0}) (ℕ × List ℕ)
read_byte [] = err tt
read_byte (n ∷ d) = ok (n, d)

abbrev pub byte_serde : Serde (Unit {0}) ℕ
byte_serde = record { serialize = λ n. ok (byte_bytes n); deserialize = read_byte }

pub byte_serde-IsSerde : IsSerde byte_serde byte_bytes
byte_serde-IsSerde = record { serialize-bytes = λ t. refl; deserialize-append = λ t rest. refl }

abbrev pub option_bytes : Option ℕ → List ℕ
option_bytes none = 0 ∷ []
option_bytes (some n) = 1 ∷ n ∷ []

abbrev read_option : List ℕ → Result (Unit {0}) (Option ℕ × List ℕ)
read_option (zero ∷ d) = ok (none, d)
read_option (suc zero ∷ n ∷ d) = ok (some n, d)
read_option _ = err tt

abbrev pub option_serde : Serde (Unit {0}) (Option ℕ)
option_serde = record { serialize = λ n. ok (option_bytes n); deserialize = read_option }

read_option-append :
    (o : Option ℕ) (rest : List ℕ) → read_option (option_bytes o ++ rest) ≡ ok (o, rest)
read_option-append none rest = refl
read_option-append (some n) rest = refl

pub option_serde-IsSerde : IsSerde option_serde option_bytes
option_serde-IsSerde = record {
  serialize-bytes = λ t. refl;
  deserialize-append = read_option-append;
}

abbrev pub command_bytes : Command → List ℕ
command_bytes some_command = 0 ∷ []

abbrev read_command : List ℕ → Result (Unit {0}) (Command × List ℕ)
read_command (zero ∷ d) = ok (some_command, d)
read_command _ = err tt

abbrev pub command_serde : Serde (Unit {0}) Command
command_serde = record { serialize = λ c. ok (command_bytes c); deserialize = read_command }

read_command-append :
    (c : Command) (rest : List ℕ) → read_command (command_bytes c ++ rest) ≡ ok (c, rest)
read_command-append some_command rest = refl

pub command_serde-IsSerde : IsSerde command_serde command_bytes
command_serde-IsSerde = record {
  serialize-bytes = λ c. refl;
  deserialize-append = read_command-append;
}

abbrev pub event_bytes : EventOf Event NoEe → List ℕ
event_bytes (logged some_event offset) = 0 ∷ 0 ∷ offset ∷ []
event_bytes (ephemeral e) = 1 ∷ []
event_bytes (recovery start end) = 2 ∷ start ∷ end ∷ []

abbrev read_event : List ℕ → Result (Unit {0}) (EventOf Event NoEe × List ℕ)
read_event (zero ∷ zero ∷ offset ∷ d) = ok (logged some_event offset, d)
read_event (suc zero ∷ d) = ok (ephemeral tt, d)
read_event (suc (suc zero) ∷ start ∷ end ∷ d) = ok (recovery start end, d)
read_event _ = err tt

abbrev pub event_serde : Serde (Unit {0}) (EventOf Event NoEe)
event_serde = record { serialize = λ e. ok (event_bytes e); deserialize = read_event }

read_event-append :
    (e : EventOf Event NoEe) (rest : List ℕ) → read_event (event_bytes e ++ rest) ≡ ok (e, rest)
read_event-append (logged some_event offset) rest = refl
read_event-append (ephemeral tt) rest = refl
read_event-append (recovery start end) rest = refl

pub event_serde-IsSerde : IsSerde event_serde event_bytes
event_serde-IsSerde = record { serialize-bytes = λ e. refl; deserialize-append = read_event-append }
