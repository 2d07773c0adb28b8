-- ===== src/Data/Discovery/Servers.antt =====
-- data/examples/discovery/main.rs: what one request does to all the servers that hear it.
use flip_flop_protocol.Common.{
  ℕ, ◌+◌, ◌<◌, ◌≡◌, refl, sym, ap, ap₂, ◌∙◌, arith, Bool, true, false, Option, none, some, List, [],
  ◌∷◌, ◌++◌, if◌then◌else◌, map, map-append, All, All-append,
}
use flip_flop_protocol.Common.Words.{u16}
use flip_flop_protocol.Common.Outcome.{returns}
use flip_flop_protocol.Data.Crates.{Cipher, IsAead, Extend, IsExtend, Codec, IsCodec}
use flip_flop_protocol.Data.Frame.{DataFrame, IsFrame, frame_bytes, mic_size}
use flip_flop_protocol.Data.Discovery.{Identify, Identified, Rng, max_addresses}
use flip_flop_protocol.Data.Discovery.Members.{IsIdentify, member}
use flip_flop_protocol.Data.Discovery.Rounds.{replied, readable, IsReply}
use flip_flop_protocol.Data.Discovery.Packets.{
  process_client_request, process_server_reply, IsPayload,
}
use flip_flop_protocol.Data.Discovery.Server.{
  Station, sent_list, server_task, server_loop, server_loops,
}
use flip_flop_protocol.Data.Discovery.Answer.{
  holds, IsStation, IsIdentified, IsAnswer, answer-IsAnswer,
}

-- How many servers have the address.
abbrev pub holders : {R : Type 0} → ℕ → List (Station R) → ℕ
holders a [] = 0
holders a (s ∷ ss) = holds a s.server_address + holders a ss

replied-append :
    (a : ℕ) (rs ts : List (Option Identified)) → replied a (rs ++ ts) ≡ replied a rs + replied a ts
replied-append a [] ts = omega arith
replied-append a (none ∷ rs) ts = replied-append a rs ts
replied-append a (some x ∷ rs) ts = omega (arith, replied-append a rs ts)

readable-append :
    (rs ts : List (Option Identified))
    → readable rs ≡ true
    → readable ts ≡ true
    → readable (rs ++ ts) ≡ true
readable-append [] ts h k = k
readable-append (none ∷ rs) ts h k = h
readable-append (some x ∷ rs) ts h k = readable-append rs ts h k

-- The servers behind a request, and the packets that answer it.
pub record AreAnswers {E R : Type 0} (frames : Codec E DataFrame) (extend : Extend)
    (cipher : Cipher) (identifieds : Codec E Identified) (id : Identify) (ss ss' : List (Station R))
    (packets : List (List ℕ)) : Type 0 where
  pub replies : List (Option Identified)
  pub read : map (process_server_reply frames extend cipher identifieds) packets ≡ replies
  pub are_replies : All IsReply replies
  pub are_readable : readable replies ≡ true
  pub settle :
      (a : ℕ)
      → a < max_addresses
      → (holders a ss' ≡ (if member id a then holders a ss else replied a replies))
        × (member id a ≡ true → replied a replies ≡ 0)
  pub stations : All IsStation ss'

if_add :
    (b : Bool) (m n m' n' : ℕ)
    → (if b then m else n) + (if b then m' else n') ≡ (if b then m + m' else n + n')
if_add true m n m' n' = refl
if_add false m n m' n' = refl

if_none : (b : Bool) → ◌≡◌ {A = ℕ} (if b then 0 else 0) 0
if_none true = refl
if_none false = refl

module _ {E R : Type 0} {frames : Codec E DataFrame} (codec : IsCodec frames IsFrame frame_bytes)
    {extend : Extend} (vectors : IsExtend extend) {cipher : Cipher} (aead : IsAead mic_size cipher)
    (identifies : Codec E Identify) {identifieds : Codec E Identified} {bytes : Identified → List ℕ}
    (identified_codec : IsCodec identifieds IsIdentified bytes)
    (fits : IsPayload IsIdentified bytes) (g : Rng R) where
  server_loop-IsAnswer :
      {id : Identify} {s : Station R} (packet : List ℕ)
      → IsIdentify id
      → IsStation s
      → process_client_request frames extend cipher identifies packet ≡ some id
      → (s' : Station R) × (sent : Option (List ℕ)) × (server_loop frames extend cipher identifieds
            g identifies s packet
          ≡ returns (s', sent))
        × IsAnswer frames extend cipher identifieds id s s' sent
  unfolding server_loop server_task
  server_loop-IsAnswer {id} {s} packet v w heard =
      let (s', sent, ran, ok) =
        answer-IsAnswer codec vectors aead identified_codec fits g {id = id} {s = s} v w in
      let addr = ok.station.address_u8 in
      (
        record s' { frame_counter = u16 (s'.frame_counter + 1) },
        sent,
        rw (server_loop, server_task, heard, ran) refl,
        record {
          replies = ok.replies;
          read = ok.read;
          are_replies = ok.are_replies;
          are_readable = ok.are_readable;
          settles = ok.settles;
          station = record { address_u8 = addr; counter_u16 = omega arith };
        },
      )

  pub server_loops-AreAnswers :
      {id : Identify} (ss : List (Station R)) (packet : List ℕ)
      → IsIdentify id
      → All IsStation ss
      → process_client_request frames extend cipher identifies packet ≡ some id
      → (ss' : List (Station R)) × (packets : List (List ℕ)) × (server_loops frames extend cipher
            identifieds g identifies ss packet
          ≡ returns (ss', packets))
        × AreAnswers frames extend cipher identifieds id ss ss' packets
  unfolding server_loops
  server_loops-AreAnswers {id} [] packet v w heard = (
    [],
    [],
    refl,
    record {
      replies = [];
      read = refl;
      are_replies = tt;
      are_readable = refl;
      settle = λ a h. (sym (if_none (member id a)), λ t. refl);
      stations = tt;
    },
  )
  server_loops-AreAnswers {id} (s ∷ ss) packet v (ws, w) heard =
      let (s', sent, ran, one) = server_loop-IsAnswer {id = id} {s = s} packet v ws heard in
      let (ss', packets, rest, others) = server_loops-AreAnswers ss packet v w heard in
      let reads = process_server_reply frames extend cipher identifieds in
      (
        s' ∷ ss',
        sent_list sent ++ packets,
        rw (ran, rest) refl,
        record {
          replies = one.replies ++ others.replies;
          read = rw (map-append reads (sent_list sent) packets, one.read, others.read) refl;
          are_replies =
              All-append IsReply one.replies others.replies one.are_replies others.are_replies;
          are_readable =
              readable-append one.replies others.replies one.are_readable others.are_readable;
          settle = λ a h.
              let (here, quiet) = one.settles a h in
              let (there, quiet') = others.settle a h in
              let sum = replied-append a one.replies others.replies in
              (
                ap₂ (λ m n. m + n) here there
                    ∙ if_add (member id a) _ _ _ _
                    ∙ ap (λ n. if member id a then holders a (s ∷ ss) else n) (sym sum),
                λ t. omega (arith, quiet t, quiet' t, sum),
              );
          stations = (one.station, others.stations);
        },
      )
