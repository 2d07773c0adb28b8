-- ===== src/Data/Discovery/Unique.antt =====
-- data/examples/discovery/main.rs: no two servers keep an address, where no packet is lost.
use flip_flop_protocol.Common.{
  ◌↔◌, ℕ, ◌^◌, ◌≤◌, ◌<◌, ◌≡◌, refl, sym, ap, ◌∙◌, arith, Bool, true, ◌||◌, List, ◌==◌,
  if◌then◌else◌, replicate, length-replicate,
}
use flip_flop_protocol.Common.Outcome.{Outcome, returns}
use flip_flop_protocol.Data.Crates.{Cipher, IsAead, Extend, IsExtend, Codec, IsCodec}
use flip_flop_protocol.Data.Frame.{DataFrame, IsFrame, frame_bytes, mic_size}
use flip_flop_protocol.Data.Header.{client}
use flip_flop_protocol.Data.Discovery.{
  Identify, Identified, Rng, is_address_set, max_addresses, min_payload_size, min_packet_size,
}
use flip_flop_protocol.Data.Discovery.Members.{IsIdentify, member, is_address_set-member}
use flip_flop_protocol.Data.Discovery.Rounds.{replied, client_round-member}
use flip_flop_protocol.Data.Discovery.Packets.{
  process_client_request, IsPayload, from_datagram-discovery,
}
use flip_flop_protocol.Data.Discovery.Server.{Station}
use flip_flop_protocol.Data.Discovery.Client.{create_client_request, client_task}
use flip_flop_protocol.Data.Discovery.Answer.{IsIdentified}
use flip_flop_protocol.Data.Discovery.Servers.{holders, server_loops-AreAnswers}
use flip_flop_protocol.Data.Discovery.NoLoss.{
  no_loss, Reachable, started, round, IsDistinct, IsDistinct-started,
}

known_step :
    (b : Bool) (held replied held' : ℕ)
    → held' ≡ (if b then held else replied)
    → (b ≡ true → held ≤ 1)
    → (b || (replied == 1)) ≡ true
    → held' ≤ 1
known_step b held replied held' e h t = ground arith

end_step :
    (b : Bool) (held replied held' : ℕ)
    → held' ≡ (if b then held else replied)
    → (b ≡ true → held ≤ 1)
    → replied ≤ 1
    → held' ≤ (if (b || (replied == 1)) then 1 else 0)
end_step b held replied held' e h least = ground arith

replied_step :
    (b : Bool) (held replied held' : ℕ)
    → held' ≡ (if b then held else replied)
    → (b ≡ true → replied ≡ 0)
    → held' ≤ 1
    → replied ≤ 1
replied_step b held replied held' e quiet h = ground arith

one_end : (b : Bool) (held : ℕ) → held ≤ (if b then 1 else 0) → held ≤ 1
one_end b held h = ground arith

held_end : (b : Bool) (held : ℕ) → held ≤ (if b then 1 else 0) → held ≡ 1 → b ≡ true
held_end b held h t = ground arith

set_known : {o : Outcome Bool} {b : Bool} → o ≡ returns b → o ≡ returns true → b ≡ true
set_known h t = ground arith

module _ {E R : Type 0} {frames : Codec E DataFrame} (codec : IsCodec frames IsFrame frame_bytes)
    {extend : Extend} (vectors : IsExtend extend) {cipher : Cipher} (aead : IsAead mic_size cipher)
    {identifies : Codec E Identify} {identify_bytes : Identify → List ℕ}
    (identify_codec : IsCodec identifies IsIdentify identify_bytes)
    (identify_fits : IsPayload IsIdentify identify_bytes) {identifieds : Codec E Identified}
    {identified_bytes : Identified → List ℕ}
    (identified_codec : IsCodec identifieds IsIdentified identified_bytes)
    (identified_fits : IsPayload IsIdentified identified_bytes) (g : Rng R) where
  client_task-IsDistinct :
      {identify : Identify} {ss : List (Station R)} (frame_counter : ℕ)
      → frame_counter < 2 ^ 16
      → IsDistinct identify ss
      → (ss' : List (Station R)) × (identify' : Identify) × (finished : Bool) × (client_task frames
            extend cipher identifies identifieds
            (no_loss frames extend cipher identifies identifieds g)
            ss
            identify
            frame_counter
          ≡ returns (ss', identify', finished))
        × IsDistinct identify' ss'
        × (finished ≡ true
            → (a : ℕ) → a < max_addresses
            → holders a ss' ≤ (if member identify' a then 1 else 0))
        × (((a : ℕ) → a < max_addresses → holders a ss' ≤ 1) → finished ≡ true)
  unfolding client_task create_client_request no_loss process_client_request
  client_task-IsDistinct {identify} {ss} frame_counter hf d =
      let v = d.identify_size in
      let payload =
        identify_codec.to_vec_fits identify min_payload_size v
          (identify_fits.payload_fit identify v) in
      let (packet, made, size, read) =
        from_datagram-discovery codec vectors aead identify_codec identify_fits client identify
          frame_counter (replicate min_packet_size 0) v hf
          (length-replicate {A = ℕ} min_packet_size 0) in
      let (ss', packets, served, answers) =
        server_loops-AreAnswers codec vectors aead identifies identified_codec identified_fits g ss
          packet v d.stations read in
      let (identify', finished, ran, v', members, least, ends) =
        client_round-member identify answers.replies v answers.are_replies in
      (
        ss',
        identify',
        finished,
        rw (payload, made, served, answers.read, ran) refl,
        record {
          identify_size = v';
          stations = answers.stations;
          client_known = members 0 (omega arith) ∙ rw d.client_known refl;
          client_free = (answers.settle 0 (omega arith)).0 ∙ rw d.client_known d.client_free;
          one_holder = λ a ha t.
              known_step (member identify a) (holders a ss) (replied a answers.replies)
                (holders a ss') (answers.settle a ha).0 (d.one_holder a ha)
                (sym (members a ha) ∙ t);
        },
        λ e a ha. rw (members a ha) (
            end_step (member identify a) (holders a ss) (replied a answers.replies) (holders a ss')
              (answers.settle a ha).0 (d.one_holder a ha) (least e a ha)),
        λ most. ends answers.are_readable λ a ha.
            let (here, quiet) = answers.settle a ha in
            replied_step (member identify a) (holders a ss) (replied a answers.replies)
              (holders a ss') here quiet (most a ha),
      )

  Reachable-IsDistinct :
      {identify : Identify} {ss : List (Station R)}
      → Reachable frames extend cipher identifies identifieds g identify ss
      → IsDistinct identify ss
  Reachable-IsDistinct (started {ss = ss} e h) = IsDistinct-started ss e h
  Reachable-IsDistinct (round {identify} {identify'} {ss} {ss'} frame_counter hf before e) =
      let (ss'', identify'', finished, ran, d, end, ends) =
        client_task-IsDistinct {identify = identify} {ss = ss} frame_counter hf
          (Reachable-IsDistinct before) in
      let same : ss'' ≡ ss' = ground (arith, ran, e) in
      let same' : identify'' ≡ identify' = ground (arith, ran, e) in rw (same, same') at d

  -- Over a channel without loss, from servers without an address and a client that knows its own,
  -- at every frame counter the client's task returns after any number of rounds, and behind it no
  -- server has the address 0, no address that the client knows is held by two servers; the task
  -- says that it is finished exactly if no address at all is held by two, and then every address
  -- that is held is known.
  pub client_task-Reachable :
      {identify : Identify} {ss : List (Station R)} (frame_counter : ℕ)
      → Reachable frames extend cipher identifies identifieds g identify ss
      → frame_counter < 2 ^ 16
      → (ss' : List (Station R)) × (identify' : Identify) × (finished : Bool) × (client_task frames
            extend cipher identifies identifieds
            (no_loss frames extend cipher identifies identifieds g)
            ss
            identify
            frame_counter
          ≡ returns (ss', identify', finished))
        × (holders 0 ss' ≡ 0)
        × ((a : ℕ)
            → a < max_addresses
            → is_address_set identify' a ≡ returns true
            → holders a ss' ≤ 1)
        × ((finished ≡ true) ↔ ((a : ℕ) → a < max_addresses → holders a ss' ≤ 1))
        × (finished ≡ true
            → (a : ℕ) → a < max_addresses
            → holders a ss' ≡ 1
            → is_address_set identify' a ≡ returns true)
  client_task-Reachable {identify} {ss} frame_counter before hf =
      let (ss', identify', finished, ran, d, end, ends) =
        client_task-IsDistinct {identify = identify} {ss = ss} frame_counter hf
          (Reachable-IsDistinct before) in
      (
        ss',
        identify',
        finished,
        ran,
        d.client_free,
        λ a ha t. d.one_holder a ha (set_known (is_address_set-member a d.identify_size ha) t),
        (λ e a ha. one_end (member identify' a) (holders a ss') (end e a ha), ends),
        λ e a ha t.
            is_address_set-member a d.identify_size ha
            ∙ ap returns (held_end (member identify' a) (holders a ss') (end e a ha) t),
      )
