-- ===== src/Data/Discovery/Answer.antt =====
-- data/examples/discovery/main.rs: what a server's answer does to the addresses that are held.
use flip_flop_protocol.Common.{
  ℕ, ◌%◌, ◌^◌, ◌<◌, ◌≡◌, refl, ap, ◌∙◌, arith, Bool, true, false, not, Option, none, some, List, [],
  ◌∷◌, ltb, ◌==◌, if◌then◌else◌, length, get_or, replicate, length-replicate, lt→ltb, ltb_of_le,
  map, All, Bool-cases, ◌⊎◌, inl, inr,
}
use native.Mathlib.Decide.{dec_lt}
use flip_flop_protocol.Common.Outcome.{returns}
use flip_flop_protocol.Data.Crates.{Cipher, IsAead, Extend, IsExtend, Codec, IsCodec}
use flip_flop_protocol.Data.Frame.{DataFrame, IsFrame, frame_bytes, mic_size}
use flip_flop_protocol.Data.Header.{server}
use flip_flop_protocol.Data.Discovery.{
  Identify, Identified, Rng, iter, with_random_address, max_addresses, min_packet_size,
  min_payload_size,
}
use flip_flop_protocol.Data.Discovery.Members.{IsIdentify, member, is_address_set-member}
use flip_flop_protocol.Data.Discovery.Free.{free_addresses, free_from_sound, free_from_complete}
use flip_flop_protocol.Data.Discovery.Choice.{with_random_address-free}
use flip_flop_protocol.Data.Discovery.Rounds.{replied, readable, IsReply}
use flip_flop_protocol.Data.Discovery.Packets.{
  process_server_reply, IsPayload, from_datagram-discovery,
}
use flip_flop_protocol.Data.Discovery.Server.{
  Station, sent_list, wants_address, try_create_server_reply, answer,
}

-- A draw is an unset address, or every address is set.
draw_cases :
    {R : Type 0} (g : Rng R) {id : Identify} (rng : R) (server_ports : ℕ)
    → IsIdentify id
    → ((x : Identified) × (rng' : R) × (with_random_address g (iter id) rng server_ports
          ≡ returns (some x, rng'))
        × (x.server_address < max_addresses)
        × (member id x.server_address ≡ false)
        × (x.server_ports ≡ server_ports))
      ⊎ ((with_random_address g (iter id) rng server_ports ≡ returns (none, rng))
          × ((a : ℕ) → a < max_addresses → member id a ≡ true))
draw_cases g {id} rng server_ports v = elim (dec_lt 0 (length free)) [
  | yes some_free ↦
      let (lo, hi, unset) = free_from_sound id max_addresses 0 k (omega arith) in
      inl (
        record { server_address = get_or free k 0; server_ports = server_ports },
        (g.next_u32 rng).1,
        drawn ∙ ap returns (rw (lt→ltb 0 (length free) some_free)),
        hi,
        unset,
        refl,
      )
  | no none_free ↦ inr (
    drawn ∙ ap returns (rw (ltb_of_le 0 (length free) (omega arith))),
    λ a h. elim (Bool-cases (member id a)) [
      | inl known ↦ known
      | inr unset ↦
          let (j, lt, eq) = free_from_complete id max_addresses 0 a (omega arith) h unset in
          absurd (omega arith)
    ],
  )
]
  where
    free : List ℕ
    free = free_addresses id

    k : ℕ
    k = (g.next_u32 rng).0 % length free

    drawn :
        with_random_address g (iter id) rng server_ports
        ≡ returns (
            if ltb 0 (length free)
            then (
              some (record {
                server_address = get_or free ((g.next_u32 rng).0 % length free) 0;
                server_ports = server_ports;
              }),
              (g.next_u32 rng).1,
            )
            else (none, rng))
    drawn = with_random_address-free g rng server_ports v

-- How many of a server's addresses are `a`.
abbrev pub holds : ℕ → Option ℕ → ℕ
holds a none = 0
holds a (some sa) = if sa == a then 1 else 0

abbrev pub IsAddress : Option ℕ → Type 0
IsAddress none = Unit
IsAddress (some sa) = sa < max_addresses

pub record IsStation {R : Type 0} (s : Station R) : Type 0 where
  pub address_u8 : IsAddress s.server_address
  pub counter_u16 : s.frame_counter < 2 ^ 16

-- What an answer to a request makes of the address: known ones stay, the others are as replied.
abbrev pub Settles : Identify → Option ℕ → Option ℕ → List (Option Identified) → Type 0
Settles id old new rs =
    (a : ℕ)
    → a < max_addresses
    → (holds a new ≡ (if member id a then holds a old else replied a rs))
      × (member id a ≡ true → replied a rs ≡ 0)

wants_address_cases :
    {id : Identify} (o : Option ℕ)
    → IsIdentify id
    → IsAddress o
    → ((wants_address o id ≡ returns true) × ((a : ℕ) → member id a ≡ true → holds a o ≡ 0))
      ⊎ ((wants_address o id ≡ returns false) × ((a : ℕ) → member id a ≡ false → holds a o ≡ 0))
unfolding wants_address
wants_address_cases none v h = inl (refl, λ a t. refl)
wants_address_cases {id} (some sa) v h = elim (Bool-cases (member id sa)) [
  | inl t ↦ inr (rw (is_address_set-member sa v h, t) refl, other false t)
  | inr t ↦ inl (rw (is_address_set-member sa v h, t) refl, other true t)
]
  where
    other : (b : Bool) → member id sa ≡ not b → (a : ℕ) → member id a ≡ b → holds a (some sa) ≡ 0
    other b t a u = elim (Bool-cases (sa == a)) [
      | inl e ↦
          let same : sa ≡ a = ground arith in absurd (ground (arith, t, u, ap (member id) same))
      | inr e ↦ rw e refl
    ]

-- The widths of the reply's fields.
pub record IsIdentified (x : Identified) : Type 0 where
  pub address_u8 : x.server_address < max_addresses
  pub ports_u8 : x.server_ports < 2 ^ 8

drawn-Settles :
    (id : Identify) (o : Option ℕ) (x : Identified)
    → ((a : ℕ) → member id a ≡ true → holds a o ≡ 0)
    → member id x.server_address ≡ false
    → Settles id o (some x.server_address) (some x ∷ [])
drawn-Settles id o x none_known unset a h = elim (Bool-cases (member id a)) [
  | inl t ↦
      let old = none_known a t in
      let new =
        elim (Bool-cases (x.server_address == a)) as (λ _. holds a (some x.server_address) ≡ 0) [
          | inl e ↦
              let same : x.server_address ≡ a = ground arith in
              absurd (ground (arith, t, unset, ap (member id) same))
          | inr e ↦ rw e refl
        ] in
      (rw t (omega arith), λ u. omega arith)
  | inr t ↦ (rw t (omega arith), λ u. absurd (ground (arith, t, u)))
]

-- A server's state and what it sent are those of an answer to the request.
pub record IsAnswer {E R : Type 0} (frames : Codec E DataFrame) (extend : Extend) (cipher : Cipher)
    (identifieds : Codec E Identified) (id : Identify) (s s' : Station R) (sent : Option (List ℕ))
    : Type 0 where
  pub replies : List (Option Identified)
  pub read : map (process_server_reply frames extend cipher identifieds) (sent_list sent) ≡ replies
  pub are_replies : All IsReply replies
  pub are_readable : readable replies ≡ true
  pub settles : Settles id s.server_address s'.server_address replies
  pub station : IsStation s'

module _ {E R : Type 0} {frames : Codec E DataFrame} (codec : IsCodec frames IsFrame frame_bytes)
    {extend : Extend} (vectors : IsExtend extend) {cipher : Cipher} (aead : IsAead mic_size cipher)
    {identifieds : Codec E Identified} {bytes : Identified → List ℕ}
    (identified_codec : IsCodec identifieds IsIdentified bytes)
    (fits : IsPayload IsIdentified bytes) (g : Rng R) where
  pub answer-IsAnswer :
      {id : Identify} {s : Station R}
      → IsIdentify id
      → IsStation s
      → (s' : Station R) × (sent : Option (List ℕ)) × (answer frames extend cipher identifieds g s
            id
          ≡ returns (s', sent))
        × IsAnswer frames extend cipher identifieds id s s' sent
  unfolding answer try_create_server_reply process_server_reply
  answer-IsAnswer {id} {s} v w =
      let addr = w.address_u8 in
      let counter = w.counter_u16 in
      elim (wants_address_cases s.server_address v addr) [
        | inr (silent, same) ↦ (
          s,
          none,
          rw silent refl,
          record {
            replies = [];
            read = refl;
            are_replies = tt;
            are_readable = refl;
            settles = λ a h. ground (arith, same a);
            station = w;
          },
        )
        | inl (wants, none_known) ↦ elim (draw_cases g s.rng 2 v) [
          | inr (drawn, full) ↦ (
            record s { rng = s.rng },
            none,
            rw (wants, drawn) refl,
            record {
              replies = [];
              read = refl;
              are_replies = tt;
              are_readable = refl;
              settles = λ a h. (rw (full a h) refl, λ t. refl);
              station = record { address_u8 = addr; counter_u16 = counter };
            },
          )
          | inl (x, rng', drawn, small, unset, ports) ↦
              let valid : IsIdentified x = record { address_u8 = small; ports_u8 = omega arith } in
              let (out, made, size, read) =
                from_datagram-discovery codec vectors aead identified_codec fits server x
                  s.frame_counter (replicate min_packet_size 0) valid counter
                  (length-replicate {A = ℕ} min_packet_size 0) in
              let payload =
                identified_codec.to_vec_fits x min_payload_size valid (fits.payload_fit x valid) in
              (
                record s { server_address = some x.server_address; rng = rng' },
                some out,
                rw (wants, drawn, payload, made) refl,
                record {
                  replies = some x ∷ [];
                  read = rw read refl;
                  are_replies = (small, tt);
                  are_readable = refl;
                  settles = drawn-Settles id s.server_address x none_known unset;
                  station = record { address_u8 = small; counter_u16 = counter };
                },
              )
        ]
      ]
