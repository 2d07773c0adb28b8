-- ===== src/App/Exchange/Fifo/Examples.antt =====
-- A schedule of the application layer's example at a concrete input.
use flip_flop_protocol.Common.{ℕ, ◌≡◌, refl, arith, true, none, some, List, [], ◌∷◌, ◌++◌}
use flip_flop_protocol.App.Server.{Entry, new_server, receive_event}
use flip_flop_protocol.App.Toy.{list_queue, list_queue-IsCircularQueue, running, running-Reachable}
use flip_flop_protocol.App.Exchange.Schedule.{Action, arrives, asks, loses, System, run, IsPacing}
use flip_flop_protocol.App.Exchange.Fifo.{run-deliveries}

-- Offsets 5, 6 and 7 are in the log, and the client is at 6.
abbrev at_work : System (List (Entry ℕ))
at_work = record {
  server = running;
  client = record {
    last_event_offset = some 6;
    event_count = 2;
    init_mode = true;
    recovery_event_offset = none;
  };
  delivered = [];
}

at_work-IsPacing : IsPacing list_queue 5 7 6 2 1 at_work
unfolding receive_event new_server
at_work-IsPacing = record {
  reachable = running-Reachable;
  has_start = refl;
  has_end = refl;
  has_next = refl;
  has_offset = refl;
  has_count = refl;
  start_le = omega arith;
  pending = refl;
  held = omega arith;
}

-- A reply is lost, two events arrive, and four polls find the three events.
abbrev schedule : List (Action ℕ)
schedule =
    loses 110 ∷ arrives 111 3 0 ∷ asks 112 ∷ asks 113 ∷ arrives 114 9 4 ∷ asks 115 ∷ asks 116 ∷ []

run-deliveries_example :
    let y = run list_queue (λ t. t) at_work schedule in
    (y.delivered ≡ [] ++ 7 ∷ 8 ∷ 9 ∷ [])
    × (y.client.last_event_offset ≡ some 9)
    × (y.client.event_count ≡ 5)
    × (y.server.end ≡ some 9)
run-deliveries_example =
    run-deliveries list_queue (λ t. t) list_queue-IsCircularQueue schedule 5 7 6 2 1 at_work
      at_work-IsPacing (omega arith) (omega arith) (omega arith)
