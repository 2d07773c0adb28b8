-- ===== src/Data/Discovery/Known/Examples.antt =====
-- A server whose address the client knows, at a concrete input.
use flip_flop_protocol.Common.{
  ℕ, ◌≡◌, refl, ap, ◌∙◌, arith, true, Option, none, some, List, [], ◌∷◌, ◌++◌, replicate,
}
use flip_flop_protocol.Common.Outcome.{returns}
use flip_flop_protocol.Data.Header.{parse}
use flip_flop_protocol.Data.Frame.Decode.{from_datagram}
use flip_flop_protocol.Data.Frame.Toy.{toy_frames, toy_extend, toy_cipher}
use flip_flop_protocol.Data.Discovery.{Identify, rng_fixture, is_address_set}
use flip_flop_protocol.Data.Discovery.Packets.{process_client_request}
use flip_flop_protocol.Data.Discovery.Toy.{toy_identifies, toy_identifieds}
use flip_flop_protocol.Data.Discovery.Server.{Station}
use flip_flop_protocol.Data.Discovery.Known.{server_run, server_run-known}

abbrev at_5 : Station ℕ
at_5 = record { server_address = some 5; rng = 4; frame_counter = 65535 }

-- The addresses 0 and 5.
abbrev known_addresses : Identify
known_addresses = record { addresses = 33 ∷ replicate 31 0 }

abbrev request : List ℕ
request = (0 ∷ 0 ∷ 0 ∷ 0 ∷ 36 ∷ []) ++ known_addresses.addresses ++ replicate 5 0

abbrev garbage : List ℕ
garbage = 0 ∷ 7 ∷ []

only : {A : Type 0} (o : Option A) (x y : A) → o ≡ some x → o ≡ some y → y ≡ x
only o x y e e' = ground arith

reads_request :
    process_client_request toy_frames toy_extend toy_cipher toy_identifies request
    ≡ some known_addresses
unfolding process_client_request from_datagram parse
reads_request = refl

reads_garbage :
    process_client_request toy_frames toy_extend toy_cipher toy_identifies garbage ≡ none
unfolding process_client_request from_datagram parse
reads_garbage = refl

has_5 : is_address_set known_addresses 5 ≡ returns true
unfolding is_address_set
has_5 = refl

known_5 :
    (identify : Identify)
    → process_client_request toy_frames toy_extend toy_cipher toy_identifies request ≡ some identify
    → is_address_set identify 5 ≡ returns true
known_5 identify e =
    ap (λ i. is_address_set i 5) (only _ known_addresses identify reads_request e) ∙ has_5

server_run-known_example :
    server_run toy_frames toy_extend toy_cipher toy_identifies toy_identifieds rng_fixture at_5
      (request ∷ garbage ∷ request ∷ [])
    ≡ returns (record { server_address = some 5; rng = 4; frame_counter = 2 }, [])
server_run-known_example =
    server_run-known toy_frames toy_extend toy_cipher toy_identifies toy_identifieds rng_fixture
      at_5 5 (request ∷ garbage ∷ request ∷ []) refl (omega arith)
      (known_5, ((λ identify e. absurd (ground (arith, reads_garbage))), (known_5, tt)))
