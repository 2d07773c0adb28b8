-- ===== src/App/Server/OffsetRules/Examples.antt =====
-- The replies against offset-rules.md at concrete states of the server.
use flip_flop_protocol.Common.{ℕ, ◌≡◌, refl, true, none, some}
use flip_flop_protocol.App.{CommandRequest, recovery}
use flip_flop_protocol.App.Server.{Command, select_event, new_server, receive_event}
use flip_flop_protocol.App.Server.OffsetRules.{offset_rules, present}
use flip_flop_protocol.App.Toy.{list_queue, running, restarted}

abbrev asked : ℕ → CommandRequest Command
asked n = record { last_event_offset = some n; command = none }

-- The two ways to depart from the table. Behind a reset nothing is in the log, and the client that
-- is at its start gets no event in place of a recovery event; a client at the offset before the
-- oldest event gets a recovery event in place of that event.
departs :
    ((select_event list_queue restarted (asked 3) 0 ≡ none)
      × (offset_rules 3 3 restarted.events 3 0 ≡ some (recovery 3 3, 0)))
    × ((select_event list_queue running (asked 4) 0 ≡ some (recovery 5 7, 0))
        × (present 4 running.events ≡ true))
unfolding select_event receive_event new_server offset_rules present
departs = ((refl, refl), (refl, refl))
