-- ===== src/Data/Discovery/Settled.antt =====
-- data/examples/discovery/main.rs: how the loop of `main` ends.
mod Examples
use flip_flop_protocol.Common.{
  ℕ, zero, suc, ◌+◌, ◌^◌, ◌≤◌, ◌<◌, ◌≡◌, refl, arith, true, List, [], replicate, All, Bool-cases,
  inl, inr, ◌⊎◌,
}
use flip_flop_protocol.Common.Outcome.{returns, out_of_fuel}
use flip_flop_protocol.Common.Words.{u16}
use flip_flop_protocol.Data.Crates.{Cipher, IsAead, Extend, IsExtend, Codec, IsCodec}
use flip_flop_protocol.Data.Frame.{DataFrame, IsFrame, frame_bytes, mic_size}
use flip_flop_protocol.Data.Discovery.{
  Identify, Identified, Rng, is_address_set, max_addresses, min_payload_size,
}
use flip_flop_protocol.Data.Discovery.Members.{IsIdentify, set_address-with_address}
use flip_flop_protocol.Data.Discovery.Packets.{IsPayload}
use flip_flop_protocol.Data.Discovery.Server.{Station}
use flip_flop_protocol.Data.Discovery.Client.{client_loop, discover}
use flip_flop_protocol.Data.Discovery.Answer.{IsIdentified}
use flip_flop_protocol.Data.Discovery.Servers.{holders}
use flip_flop_protocol.Data.Discovery.NoLoss.{IsFresh, Reachable, started, round, no_loss}
use flip_flop_protocol.Data.Discovery.Unique.{client_task-Reachable}

-- No server has the client's address, and each has an address of its own, which the client knows.
abbrev pub IsSettled : {R : Type 0} → Identify → List (Station R) → Type 0
IsSettled identify ss =
    (holders 0 ss ≡ 0)
    × ((a : ℕ)
        → a < max_addresses
        → (holders a ss ≤ 1) × (holders a ss ≡ 1 → is_address_set identify a ≡ returns true))

abbrev no_addresses : Identify
no_addresses = record { addresses = replicate min_payload_size 0 }

module _ {E R : Type 0} {frames : Codec E DataFrame} (codec : IsCodec frames IsFrame frame_bytes)
    {extend : Extend} (vectors : IsExtend extend) {cipher : Cipher} (aead : IsAead mic_size cipher)
    {identifies : Codec E Identify} {identify_bytes : Identify → List ℕ}
    (identify_codec : IsCodec identifies IsIdentify identify_bytes)
    (identify_fits : IsPayload IsIdentify identify_bytes) {identifieds : Codec E Identified}
    {identified_bytes : Identified → List ℕ}
    (identified_codec : IsCodec identifieds IsIdentified identified_bytes)
    (identified_fits : IsPayload IsIdentified identified_bytes) (g : Rng R) where
  client_loop-Reachable :
      (fuel : ℕ) {identify : Identify} {ss : List (Station R)} (frame_counter : ℕ)
      → Reachable frames extend cipher identifies identifieds g identify ss
      → frame_counter < 2 ^ 16
      → let run =
          client_loop frames extend cipher identifies identifieds
            (no_loss frames extend cipher identifies identifieds g)
            fuel
            ss
            identify
            frame_counter in
        (run ≡ out_of_fuel)
        ⊎ ((ss' : List (Station R)) × (identify' : Identify) × (frame_counter' : ℕ) × (run
              ≡ returns (ss', identify', frame_counter'))
            × IsSettled identify' ss')
  unfolding client_loop
  client_loop-Reachable zero frame_counter before hf = inl refl
  client_loop-Reachable (suc fuel) {identify} {ss} frame_counter before hf =
      let (ss', identify', finished, ran, client_free, known, (alone, ends), held) =
        client_task-Reachable codec vectors aead identify_codec identify_fits identified_codec
          identified_fits g {identify = identify} {ss = ss} frame_counter before hf in
      elim (Bool-cases finished) [
        | inl t ↦ inr (
          ss',
          identify',
          frame_counter,
          rw (ran, t) refl,
          (client_free, λ a ha. (alone t a ha, held t a ha)),
        )
        | inr t ↦
            let rest =
              client_loop-Reachable fuel (u16 (frame_counter + 1))
                (round frame_counter hf before ran) (omega arith) in
            rw (ran, t) rest
      ]

  -- Over a channel without loss the loop of `main`, given any number of rounds, does not panic: it
  -- is still searching behind them, or it has ended with address 0 free, no address held by two
  -- servers, and every address that a server holds known to the client.
  pub discover-IsSettled :
      (fuel : ℕ) (ss : List (Station R))
      → All IsFresh ss
      → let run =
          discover frames extend cipher identifies identifieds
            (no_loss frames extend cipher identifies identifieds g)
            fuel
            ss in
        (run ≡ out_of_fuel)
        ⊎ ((ss' : List (Station R)) × (identify' : Identify) × (frame_counter' : ℕ) × (run
              ≡ returns (ss', identify', frame_counter'))
            × IsSettled identify' ss')
  unfolding discover
  discover-IsSettled fuel ss h =
      let first = set_address-with_address {id = no_addresses} 0 (omega arith) (omega arith) in
      rw first (client_loop-Reachable fuel 0 (started first h) (omega arith))
