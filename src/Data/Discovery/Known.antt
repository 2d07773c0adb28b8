-- ===== src/Data/Discovery/Known.antt =====
-- data/examples/discovery/main.rs: the loop of one server over the packets that come, and a server
-- whose address the client knows.
mod Examples
use flip_flop_protocol.Common.{
  ℕ, ◌+◌, ◌%◌, ◌^◌, ◌<◌, ◌≡◌, refl, arith, true, none, some, List, [], ◌∷◌, ◌++◌, length, All,
  Option-cases, inl, inr,
}
use flip_flop_protocol.Common.Outcome.{Outcome, returns, ◌>>=◌}
use flip_flop_protocol.Data.Crates.{Cipher, Extend, Codec}
use flip_flop_protocol.Data.Frame.{DataFrame}
use flip_flop_protocol.Data.Discovery.{Identify, Identified, Rng, is_address_set}
use flip_flop_protocol.Data.Discovery.Packets.{process_client_request}
use flip_flop_protocol.Data.Discovery.Server.{
  Station, sent_list, wants_address, answer, server_task, server_loop,
}

module _ {E R : Type 0} (frames : Codec E DataFrame) (extend : Extend) (cipher : Cipher)
    (identifies : Codec E Identify) (identifieds : Codec E Identified) (g : Rng R) where
  -- The loop that `main` starts for a server, with what it sends.
  unfoldable pub server_run : Station R → List (List ℕ) → Outcome (Station R × List (List ℕ))
  unfolding server_loop
  server_run s [] = returns (s, [])
  server_run s (d ∷ ds) =
      server_loop frames extend cipher identifieds g identifies s d >>= λ (s', sent).
      server_run s' ds >>= λ (s'', rest). returns (s'', sent_list sent ++ rest)

  counted : Station R → ℕ → Station R
  counted s n = record s { frame_counter = (s.frame_counter + n) % 2 ^ 16 }

  server_loop-known :
      (s : Station R) (a : ℕ) (d : List ℕ)
      → s.server_address ≡ some a
      → ((identify : Identify)
          → process_client_request frames extend cipher identifies d ≡ some identify
          → is_address_set identify a ≡ returns true)
      → server_loop frames extend cipher identifieds g identifies s d ≡ returns (counted s 1, none)
  unfolding server_loop server_task answer wants_address counted
  server_loop-known s a d has known =
      elim (Option-cases (process_client_request frames extend cipher identifies d)) [
        | inl unread ↦ rw (unread, server_loop, server_task) refl
        | inr (identify, read) ↦
            rw (read, server_loop, server_task, answer, has, known identify read) refl
      ]

  -- A server whose address is set in every request that it reads among whatever packets come keeps
  -- that address and its generator and sends nothing, and its frame counter counts the packets,
  -- modulo 2 ^ 16.
  pub server_run-known :
      (s : Station R) (a : ℕ) (ds : List (List ℕ))
      → s.server_address ≡ some a
      → s.frame_counter < 2 ^ 16
      → All
          (λ d.
            (identify : Identify)
            → process_client_request frames extend cipher identifies d ≡ some identify
            → is_address_set identify a ≡ returns true)
          ds
      → server_run s ds
        ≡ returns (record s { frame_counter = (s.frame_counter + length ds) % 2 ^ 16 }, [])
  unfolding server_run counted
  server_run-known s a [] has hf known =
      let same : (s.frame_counter + 0) % 2 ^ 16 ≡ s.frame_counter = omega arith in rw same refl
  server_run-known s a (d ∷ ds) has hf (k, known) =
      let rest = server_run-known (counted s 1) a ds has (omega arith) known in
      let same : ((s.frame_counter + 1) % 2 ^ 16 + length ds) % 2 ^ 16
          ≡ (s.frame_counter + length (d ∷ ds)) % 2 ^ 16 =
        omega arith in
      rw (server_loop-known s a d has k, rest, same) refl
