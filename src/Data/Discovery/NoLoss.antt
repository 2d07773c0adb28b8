-- ===== src/Data/Discovery/NoLoss.antt =====
-- data/examples/discovery/main.rs: a channel without loss, and the states that rounds over it reach.
use flip_flop_protocol.Common.{
  ℕ, ◌^◌, ◌≤◌, ◌<◌, ◌≡◌, refl, arith, Bool, true, none, some, List, [], ◌∷◌, replicate, All,
}
use flip_flop_protocol.Common.Outcome.{returns, ◌>>=◌}
use flip_flop_protocol.Data.Crates.{Cipher, Extend, Codec}
use flip_flop_protocol.Data.Frame.{DataFrame}
use flip_flop_protocol.Data.Discovery.{
  Identify, Identified, Rng, set_address, max_addresses, min_payload_size,
}
use flip_flop_protocol.Data.Discovery.Members.{
  IsIdentify, member, with_address, set_address-with_address, with_address-IsIdentify,
  member-with_address,
}
use flip_flop_protocol.Data.Discovery.Server.{Station, server_loops}
use flip_flop_protocol.Data.Discovery.Client.{Channel, client_task}
use flip_flop_protocol.Data.Discovery.Answer.{IsStation}
use flip_flop_protocol.Data.Discovery.Servers.{holders}

-- Servers as `main` starts them.
pub record IsFresh {R : Type 0} (s : Station R) : Type 0 where
  pub no_address : s.server_address ≡ none
  pub counter : s.frame_counter ≡ 0

module _ {E R : Type 0} (frames : Codec E DataFrame) (extend : Extend) (cipher : Cipher)
    (identifies : Codec E Identify) (identifieds : Codec E Identified) (g : Rng R) where
  -- A channel without loss: every server gets the request, and the client every reply in its window.
  unfoldable pub no_loss : Channel (List (Station R))
  no_loss ss packet =
      server_loops frames extend cipher identifieds g identifies ss packet >>= λ (ss', packets).
      returns (ss', some packets)

  -- What the client knows and the servers hold between two rounds.
  pub data Reachable : Identify → List (Station R) → Type 0 where
    started :
        {identify : Identify} {ss : List (Station R)}
        → set_address (record { addresses = replicate min_payload_size 0 }) 0 ≡ returns identify
        → All IsFresh ss
        → Reachable identify ss
    round :
        {identify identify' : Identify} {ss ss' : List (Station R)} {finished : Bool}
        (frame_counter : ℕ)
        → frame_counter < 2 ^ 16
        → Reachable identify ss
        → client_task frames extend cipher identifies identifieds no_loss ss identify frame_counter
          ≡ returns (ss', identify', finished)
        → Reachable identify' ss'

-- A known address has one server at most, and the client's has none.
pub record IsDistinct {R : Type 0} (identify : Identify) (ss : List (Station R)) : Type 0 where
  pub identify_size : IsIdentify identify
  pub stations : All IsStation ss
  pub client_known : member identify 0 ≡ true
  pub client_free : holders 0 ss ≡ 0
  pub one_holder : (a : ℕ) → a < max_addresses → member identify a ≡ true → holders a ss ≤ 1

holders-IsFresh : {R : Type 0} (a : ℕ) (ss : List (Station R)) → All IsFresh ss → holders a ss ≡ 0
holders-IsFresh a [] h = refl
holders-IsFresh a (s ∷ ss) (hs, h) = rw hs.no_address (omega (arith, holders-IsFresh a ss h))

stations-IsFresh : {R : Type 0} (ss : List (Station R)) → All IsFresh ss → All IsStation ss
stations-IsFresh [] h = tt
stations-IsFresh (s ∷ ss) (hs, h) = (
  record { address_u8 = rw hs.no_address tt; counter_u16 = omega (arith, hs.counter) },
  stations-IsFresh ss h,
)

abbrev no_addresses : Identify
no_addresses = record { addresses = replicate min_payload_size 0 }

pub IsDistinct-started :
    {R : Type 0} {identify : Identify} (ss : List (Station R))
    → set_address no_addresses 0 ≡ returns identify
    → All IsFresh ss
    → IsDistinct identify ss
IsDistinct-started {R} {identify} ss e h =
    let v : IsIdentify no_addresses = omega arith in
    let set = set_address-with_address 0 v (omega arith) in
    let same : identify ≡ with_address no_addresses 0 = ground arith in
    let holders_none : (a : ℕ) → holders a ss ≡ 0 = λ a. holders-IsFresh a ss h in
    rw same (record {
      identify_size = with_address-IsIdentify 0 v;
      stations = stations-IsFresh ss h;
      client_known = member-with_address 0 0 v (omega arith);
      client_free = holders_none 0;
      one_holder = λ a ha known. omega (arith, holders_none a);
    })
