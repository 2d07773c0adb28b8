-- ===== src/Data/Discovery/Toy.antt =====
-- Concrete stand-ins for postcard's encodings of the two discovery messages, for the examples: the
-- bytes of the bit field, and the two bytes of a reply.
use flip_flop_protocol.Common.{
  ℕ, ◌≡◌, refl, arith, List, [], ◌∷◌, ◌++◌, length, take, take-append, length-append, leb,
  if◌then◌else◌, some, none,
}
use flip_flop_protocol.Common.Result.{Result, ok, err}
use flip_flop_protocol.Data.Crates.{Codec, IsCodec}
use flip_flop_protocol.Data.Frame.Toy.{write_prefix}
use flip_flop_protocol.Data.Discovery.{Identify, Identified}
use flip_flop_protocol.Data.Discovery.Members.{IsIdentify}
use flip_flop_protocol.Data.Discovery.Answer.{IsIdentified}
use flip_flop_protocol.Data.Discovery.Packets.{IsPayload}

abbrev pub identify_bytes : Identify → List ℕ
identify_bytes id = id.addresses

abbrev pub toy_identifies : Codec (Unit {0}) Identify
toy_identifies = record {
  to_slice = λ id. write_prefix (identify_bytes id);
  to_vec = λ id capacity.
      if leb (length (identify_bytes id)) capacity then some (identify_bytes id) else none;
  from_bytes = λ b. if leb 32 (length b) then ok (record { addresses = take 32 b }) else err tt;
}

addresses_back :
    (addresses rest : List ℕ)
    → length addresses ≡ 32
    → ◌≡◌ {A = Result (Unit {0}) Identify}
        (if leb 32 (length (addresses ++ rest))
          then ok (record { addresses = take 32 (addresses ++ rest) })
          else err tt)
        (ok (record { addresses = addresses }))
addresses_back addresses rest h =
    let back : take 32 (addresses ++ rest) ≡ addresses = rw h at (take-append addresses rest) in
    ground (arith, length-append addresses rest)

pub toy_identifies-IsCodec : IsCodec toy_identifies IsIdentify identify_bytes
toy_identifies-IsCodec = record {
  to_slice_fits = λ id buf v h. ground arith;
  to_slice_full = λ id buf v h. ground arith;
  to_vec_fits = λ id capacity v h. ground arith;
  from_bytes-append = λ id rest v. addresses_back id.addresses rest v.size;
}

pub identify_bytes-IsPayload : IsPayload IsIdentify identify_bytes
identify_bytes-IsPayload = record {
  payload_fit = λ id v. let size = v.size in omega arith;
  payload_u8 = λ id v. v.bytes;
}

abbrev pub identified_bytes : Identified → List ℕ
identified_bytes x = x.server_address ∷ x.server_ports ∷ []

abbrev read_identified : List ℕ → Result (Unit {0}) Identified
read_identified (a ∷ p ∷ rest) = ok (record { server_address = a; server_ports = p })
read_identified _ = err tt

abbrev pub toy_identifieds : Codec (Unit {0}) Identified
toy_identifieds = record {
  to_slice = λ x. write_prefix (identified_bytes x);
  to_vec = λ x capacity.
      if leb (length (identified_bytes x)) capacity then some (identified_bytes x) else none;
  from_bytes = read_identified;
}

pub toy_identifieds-IsCodec : IsCodec toy_identifieds IsIdentified identified_bytes
toy_identifieds-IsCodec = record {
  to_slice_fits = λ x buf v h. ground arith;
  to_slice_full = λ x buf v h. ground arith;
  to_vec_fits = λ x capacity v h. ground arith;
  from_bytes-append = λ x rest v. refl;
}

pub identified_bytes-IsPayload : IsPayload IsIdentified identified_bytes
identified_bytes-IsPayload = record {
  payload_fit = λ x v. omega arith;
  payload_u8 =
      λ x v. let a = v.address_u8 in let p = v.ports_u8 in (omega arith, (omega arith, tt));
}
