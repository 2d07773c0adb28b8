-- ===== src/Data/Discovery/Client.antt =====
-- data/examples/discovery/main.rs: the client's task, and the loop of `main`.
use flip_flop_protocol.Common.{
  ℕ, zero, suc, ◌+◌, Bool, true, false, Option, none, some, List, map, replicate,
}
use flip_flop_protocol.Common.Words.{u16}
use flip_flop_protocol.Common.Outcome.{Outcome, returns, out_of_fuel, unwrap, ◌>>=◌}
use flip_flop_protocol.Data.Crates.{Cipher, Extend, Codec}
use flip_flop_protocol.Data.Header.{client}
use flip_flop_protocol.Data.Frame.{DataFrame}
use flip_flop_protocol.Data.Frame.Encode.{to_datagram}
use flip_flop_protocol.Data.Discovery.{
  Identify, Identified, set_address, min_payload_size, min_packet_size,
}
use flip_flop_protocol.Data.Discovery.Packets.{discovery_header, process_server_reply}
use flip_flop_protocol.Data.Discovery.Round.{client_round}

-- What the channel does with the client's packet in a state of the servers: the state behind the
-- client's time window, and the packets that came in it, or `none` if it did not take the packet.
abbrev pub Channel : Type 0 → Type 0
Channel W = W → List ℕ → Outcome (W × Option (List (List ℕ)))

module _ {E W : Type 0} (frames : Codec E DataFrame) (extend : Extend) (cipher : Cipher)
    (identifies : Codec E Identify) (identifieds : Codec E Identified) (channel : Channel W) where
  unfoldable pub create_client_request : Identify → ℕ → List ℕ → Outcome (List ℕ)
  create_client_request identify frame_counter datagram_buf =
      unwrap (identifies.to_vec identify min_payload_size) >>= λ payload.
      to_datagram frames extend cipher (discovery_header client frame_counter) payload datagram_buf

  unfoldable pub client_task : W → Identify → ℕ → Outcome (W × Identify × Bool)
  unfolding create_client_request
  client_task servers identify frame_counter =
      create_client_request identify frame_counter (replicate min_packet_size 0) >>= λ datagram.
      channel servers datagram >>= λ (servers', received). elim received [
        | none ↦ returns (servers', identify, true)
        | some packets ↦
            client_round identify
              (map (process_server_reply frames extend cipher identifieds) packets)
            >>= λ (identify', finished). returns (servers', identify', finished)
      ]

  -- The loop of `main` on fuel, which ends with the last frame counter.
  unfoldable pub client_loop : ℕ → W → Identify → ℕ → Outcome (W × Identify × ℕ)
  unfolding client_task
  client_loop zero servers identify frame_counter = out_of_fuel
  client_loop (suc fuel) servers identify frame_counter =
      client_task servers identify frame_counter >>= λ (servers', identify', finished).
      elim finished [
        | true ↦ returns (servers', identify', frame_counter)
        | false ↦ client_loop fuel servers' identify' (u16 (frame_counter + 1))
      ]

  unfoldable pub discover : ℕ → W → Outcome (W × Identify × ℕ)
  unfolding client_loop
  discover fuel servers =
      set_address (record { addresses = replicate min_payload_size 0 }) 0 >>= λ identify.
      client_loop fuel servers identify 0
