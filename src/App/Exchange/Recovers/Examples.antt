-- ===== src/App/Exchange/Recovers/Examples.antt =====
-- A recovery of the application layer's example at a concrete input.
use flip_flop_protocol.Common.{ℕ, ◌≡◌, refl, arith, true, none, some, List, [], ◌∷◌, ◌++◌, inr}
use flip_flop_protocol.App.Server.{Entry, new_server, receive_event}
use flip_flop_protocol.App.Toy.{list_queue, list_queue-IsCircularQueue, running, running-Reachable}
use flip_flop_protocol.App.Exchange.Schedule.{Action, arrives, asks, loses, System, run}
use flip_flop_protocol.App.Exchange.Recovers.{run-recovery}

-- Offsets 5, 6 and 7 are in the log, and the client is at 12 of an earlier log.
abbrev behind_restart : System (List (Entry ℕ))
behind_restart = record {
  server = running;
  client = record {
    last_event_offset = some 12;
    event_count = 4;
    init_mode = true;
    recovery_event_offset = none;
  };
  delivered = 11 ∷ 12 ∷ [];
}

abbrev schedule : List (Action ℕ)
schedule = asks 111 ∷ loses 112 ∷ arrives 113 3 0 ∷ asks 114 ∷ asks 115 ∷ asks 116 ∷ []

run-recovery_example :
    let y = run list_queue (λ t. t) behind_restart (asks 110 ∷ schedule) in
    (y.delivered ≡ (11 ∷ 12 ∷ []) ++ 6 ∷ 7 ∷ 8 ∷ [])
    × (y.client.last_event_offset ≡ some 8)
    × (y.client.event_count ≡ 3)
    × (y.server.end ≡ some 8)
unfolding receive_event new_server
run-recovery_example =
    run-recovery list_queue (λ t. t) list_queue-IsCircularQueue 110 schedule 5 7 12 behind_restart
      running-Reachable refl refl (omega arith) (omega arith) (omega arith) (omega arith) refl
      (inr (omega arith)) (omega arith)
