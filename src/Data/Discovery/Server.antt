-- ===== src/Data/Discovery/Server.antt =====
-- data/examples/discovery/main.rs: a server answers the client's request.
use flip_flop_protocol.Common.{
  ℕ, ◌+◌, Bool, true, not, Option, none, some, List, [], ◌∷◌, ◌++◌, replicate, if◌then◌else◌,
}
use flip_flop_protocol.Common.Words.{u16}
use flip_flop_protocol.Common.Outcome.{Outcome, returns, unwrap, ◌>>=◌}
use flip_flop_protocol.Data.Crates.{Cipher, Extend, Codec}
use flip_flop_protocol.Data.Header.{server}
use flip_flop_protocol.Data.Frame.{DataFrame}
use flip_flop_protocol.Data.Frame.Encode.{to_datagram}
use flip_flop_protocol.Data.Discovery.{
  Identify, Identified, Rng, iter, is_address_set, with_random_address, min_payload_size,
  min_packet_size,
}
use flip_flop_protocol.Data.Discovery.Packets.{discovery_header, process_client_request}

-- What a server keeps between its tasks: its address, the generator, and the frame counter.
pub record Station (R : Type 0) : Type 0 where
  pub server_address : Option ℕ
  pub rng : R
  pub frame_counter : ℕ

abbrev pub sent_list : Option (List ℕ) → List (List ℕ)
sent_list none = []
sent_list (some d) = d ∷ []

-- `server_address.map(|sa| !identify.is_address_set(sa)).unwrap_or(true)`
unfoldable pub wants_address : Option ℕ → Identify → Outcome Bool
wants_address none identify = returns true
wants_address (some sa) identify = is_address_set identify sa >>= λ known. returns (not known)

module _ {E R : Type 0} (frames : Codec E DataFrame) (extend : Extend) (cipher : Cipher)
    (identifieds : Codec E Identified) (g : Rng R) where
  -- What is replied, with the content of `datagram_buf`, and the generator behind it.
  unfoldable pub try_create_server_reply :
      Identify → R → ℕ → List ℕ → Outcome (Option (Identified × List ℕ) × R)
  try_create_server_reply identify rng frame_counter datagram_buf =
      with_random_address g (iter identify) rng 2 >>= λ (drawn, rng'). elim drawn [
        | none ↦ returns (none, rng')
        | some identified ↦ unwrap (identifieds.to_vec identified min_payload_size) >>= λ payload.
            to_datagram frames extend cipher (discovery_header server frame_counter) payload
              datagram_buf
            >>= λ datagram. returns (some (identified, datagram), rng')
      ]

  -- The task once a request was read.
  unfoldable pub answer : Station R → Identify → Outcome (Station R × Option (List ℕ))
  unfolding wants_address try_create_server_reply
  answer s identify = wants_address s.server_address identify >>= λ wants.
      let attempt =
        try_create_server_reply identify s.rng s.frame_counter (replicate min_packet_size 0)
        >>= λ (made, rng'). elim made [
          | none ↦ returns (record s { rng = rng' }, none)
          | some (identified, datagram) ↦ returns (
            record s { server_address = some identified.server_address; rng = rng' },
            some datagram,
          )
        ] in
      if wants then attempt else returns (s, none)

  -- The packet that the task receives, and the one that it sends.
  unfoldable pub server_task :
      Codec E Identify → Station R → List ℕ → Outcome (Station R × Option (List ℕ))
  unfolding answer
  server_task identifies s encrypted_payload =
      elim (process_client_request frames extend cipher identifies encrypted_payload)
        as (λ o. Outcome (Station R × Option (List ℕ))) [
          | none ↦ returns (s, none)
          | some identify ↦ answer s identify
        ]

  -- A round of the loop that `main` starts for a server.
  unfoldable pub server_loop :
      Codec E Identify → Station R → List ℕ → Outcome (Station R × Option (List ℕ))
  unfolding server_task
  server_loop identifies s encrypted_payload =
      server_task identifies s encrypted_payload >>= λ (s', sent).
      returns (record s' { frame_counter = u16 (s'.frame_counter + 1) }, sent)

  -- A packet of the channel in the loops of all servers, and the packets that they send.
  unfoldable pub server_loops :
      Codec E Identify → List (Station R) → List ℕ → Outcome (List (Station R) × List (List ℕ))
  unfolding server_loop
  server_loops identifies [] encrypted_payload = returns ([], [])
  server_loops identifies (s ∷ ss) encrypted_payload =
      server_loop identifies s encrypted_payload >>= λ (s', sent).
      server_loops identifies ss encrypted_payload >>= λ (ss', rest).
      returns (s' ∷ ss', sent_list sent ++ rest)
