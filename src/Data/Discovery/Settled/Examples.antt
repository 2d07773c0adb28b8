-- ===== src/Data/Discovery/Settled/Examples.antt =====
-- The discovery of addresses at concrete inputs, with the stand-ins of Data/Frame/Toy and
-- Data/Discovery/Toy.
use flip_flop_protocol.Common.{
  ◌↔◌, ℕ, ◌≤◌, ◌<◌, ◌≡◌, refl, arith, ◌⊎◌, Bool, true, Option, none, some, List, [], ◌∷◌, replicate,
  map, take, All,
}
use flip_flop_protocol.Common.Outcome.{Outcome, returns, out_of_fuel, ◌>>=◌}
use flip_flop_protocol.Data.Header.{to_packed, parse}
use flip_flop_protocol.Data.Frame.{new_nonce}
use flip_flop_protocol.Data.Frame.Decode.{from_datagram}
use flip_flop_protocol.Data.Frame.Encode.{to_datagram}
use flip_flop_protocol.Data.Frame.Toy.{
  toy_frames, toy_frames-IsCodec, toy_extend, toy_extend-IsExtend, toy_cipher, toy_cipher-IsAead,
}
use flip_flop_protocol.Data.Discovery.{
  Identify, rng_fixture, max_addresses, is_address_set, set_address, iter, next, spare_loop,
  with_random_address,
}
use flip_flop_protocol.Data.Discovery.Toy.{
  toy_identifies, toy_identifies-IsCodec, identify_bytes-IsPayload, toy_identifieds,
  toy_identifieds-IsCodec, identified_bytes-IsPayload,
}
use flip_flop_protocol.Data.Discovery.Round.{client_round}
use flip_flop_protocol.Data.Discovery.Packets.{process_client_request, process_server_reply}
use flip_flop_protocol.Data.Discovery.Server.{Station, server_loops}
use flip_flop_protocol.Data.Discovery.Client.{Channel, client_task, discover}
use flip_flop_protocol.Data.Discovery.Servers.{holders}
use flip_flop_protocol.Data.Discovery.NoLoss.{IsFresh, Reachable, started, no_loss}
use flip_flop_protocol.Data.Discovery.Unique.{client_task-Reachable}
use flip_flop_protocol.Data.Discovery.Settled.{IsSettled, discover-IsSettled}

abbrev fresh : ℕ → Station ℕ
fresh rng = record { server_address = none; rng = rng; frame_counter = 0 }

-- The generators of the first two agree.
abbrev servers : List (Station ℕ)
servers = fresh 4 ∷ fresh 4 ∷ fresh 7 ∷ []

servers-IsFresh : All IsFresh servers
servers-IsFresh = (
  record { no_address = refl; counter = refl },
  (
    record { no_address = refl; counter = refl },
    (record { no_address = refl; counter = refl }, tt),
  ),
)

abbrev only_client : Identify
only_client = record { addresses = 1 ∷ replicate 31 0 }

servers_started :
    Reachable toy_frames toy_extend toy_cipher toy_identifies toy_identifieds rng_fixture
      only_client servers
unfolding set_address
servers_started = started refl servers-IsFresh

client_task-Reachable_example :
    (ss' : List (Station ℕ)) × (identify' : Identify) × (finished : Bool) × (client_task toy_frames
        toy_extend toy_cipher toy_identifies toy_identifieds
        (no_loss toy_frames toy_extend toy_cipher toy_identifies toy_identifieds rng_fixture)
        servers
        only_client
        3
      ≡ returns (ss', identify', finished))
    × (holders 0 ss' ≡ 0)
    × ((a : ℕ) → a < max_addresses → is_address_set identify' a ≡ returns true → holders a ss' ≤ 1)
    × ((finished ≡ true) ↔ ((a : ℕ) → a < max_addresses → holders a ss' ≤ 1))
    × (finished ≡ true
        → (a : ℕ) → a < max_addresses
        → holders a ss' ≡ 1
        → is_address_set identify' a ≡ returns true)
client_task-Reachable_example =
    client_task-Reachable toy_frames-IsCodec toy_extend-IsExtend toy_cipher-IsAead
      toy_identifies-IsCodec identify_bytes-IsPayload toy_identifieds-IsCodec
      identified_bytes-IsPayload rng_fixture 3 servers_started (omega arith)

discover-IsSettled_example :
    let run =
      discover toy_frames toy_extend toy_cipher toy_identifies toy_identifieds
        (no_loss toy_frames toy_extend toy_cipher toy_identifies toy_identifieds rng_fixture)
        5
        servers in
    (run ≡ out_of_fuel)
    ⊎ ((ss' : List (Station ℕ)) × (identify' : Identify) × (frame_counter' : ℕ) × (run
          ≡ returns (ss', identify', frame_counter'))
        × IsSettled identify' ss')
discover-IsSettled_example =
    discover-IsSettled toy_frames-IsCodec toy_extend-IsExtend toy_cipher-IsAead
      toy_identifies-IsCodec identify_bytes-IsPayload toy_identifieds-IsCodec
      identified_bytes-IsPayload rng_fixture 5 servers servers-IsFresh

-- The address that each server has behind a run of the client's loop.
abbrev addresses_of : Outcome (List (Station ℕ) × Identify × ℕ) → Outcome (List (Option ℕ))
addresses_of run = run >>= λ (ss, identify, frame_counter). returns (map (λ s. s.server_address) ss)

abbrev two_servers : List (Station ℕ)
two_servers = fresh 4 ∷ fresh 7 ∷ []

-- Without loss, servers that draw different addresses keep them.
both_settle :
    addresses_of (
      discover toy_frames toy_extend toy_cipher toy_identifies toy_identifieds
        (no_loss toy_frames toy_extend toy_cipher toy_identifies toy_identifieds rng_fixture)
        1
        two_servers)
    ≡ returns (some 5 ∷ some 8 ∷ [])
unfolding discover set_address no_loss server_loops process_client_request process_server_reply
    client_round is_address_set with_random_address spare_loop next iter to_datagram from_datagram
    parse new_nonce to_packed
both_settle = refl

-- A channel that gives the client the first reply only.
abbrev loses_replies : Channel (List (Station ℕ))
loses_replies ss packet =
    server_loops toy_frames toy_extend toy_cipher toy_identifieds rng_fixture toy_identifies ss
      packet
    >>= λ (ss', packets). returns (ss', some (take 1 packets))

-- Servers that draw one address in a round in which one of their replies is lost.
both_keep :
    addresses_of (
      discover toy_frames toy_extend toy_cipher toy_identifies toy_identifieds loses_replies 1
        (fresh 4 ∷ fresh 4 ∷ []))
    ≡ returns (some 5 ∷ some 5 ∷ [])
unfolding discover set_address server_loops process_client_request process_server_reply client_round
    is_address_set with_random_address spare_loop next iter to_datagram from_datagram parse
    new_nonce to_packed
both_keep = refl
