-- ===== src/Data/Update/Watch/Steps.antt =====
-- data/examples/update/main.rs: the packets of an update, one after another, on a server.
use flip_flop_protocol.Common.{
  ℕ, ◌+◌, ◌<◌, ◌≡◌, refl, ap, ◌∙◌, arith, Bool, true, false, Option, none, some, List, [], ◌∷◌,
  ◌++◌, ◌==◌, if◌then◌else◌, length, length-append, append_assoc, append-nil, ==_of_ne, All, ◌⊎◌,
  inl, inr, Option-cases,
}
use flip_flop_protocol.Data.Crates.{Cipher, Extend, Codec}
use flip_flop_protocol.Data.Frame.{DataFrame}
use flip_flop_protocol.Data.Update.{Update, PrepareForUpdate, Version}
use flip_flop_protocol.Data.Update.Client.{Sent}
use flip_flop_protocol.Data.Update.Chunks.{Tiles, IsChunk}
use flip_flop_protocol.Data.Update.Server.{
  UpdateInfo, process_client_update_request, process_client_prepare_for_update_request,
  process_active_update, activate_update_if_new_version, active_update,
}
use flip_flop_protocol.Data.Update.Transfer.{at_offset, process_chunk, Tiles-length}
use flip_flop_protocol.Data.Update.Session.{datagrams_of, receive_packet_update}
use flip_flop_protocol.Data.Update.Origin.{AnyOf}
use flip_flop_protocol.Data.Update.Watch.{
  Watch, next_active, receive_packet-next_active, take_update, take_packet, watch_packet,
  watch_packets, prepared,
}

module _ {E : Type 0} (frames : Codec E DataFrame) (extend : Extend) (updates : Codec E Update)
    (prepares : Codec E PrepareForUpdate) (new_cipher : List ℕ → Cipher) (server_cipher : Cipher)
    (current_version : Version) where
  watch_update :
      (i : UpdateInfo) (u : Update) (d buffer : List ℕ) (finished : List (List ℕ))
      → process_client_update_request frames extend updates prepares i.cipher d ≡ some u
      → watch_packet frames extend updates prepares new_cipher server_cipher current_version
          (record { active = some i; buffer = buffer; finished = finished })
          d
        ≡ record {
          active =
              if (process_active_update i u).0 then none else some (process_active_update i u).1;
          buffer = (take_update i u buffer finished).0;
          finished = (take_update i u buffer finished).1;
        }
  unfolding watch_packet active_update
  watch_update i u d buffer finished h =
      rw
        (
          receive_packet_update frames extend updates prepares new_cipher server_cipher
              current_version i d u h,
          h,
        )
        refl

  pub watch_packets-Tiles :
      (offset : ℕ) (bytes buffer : List ℕ) (finished : List (List ℕ)) (ss : List Sent)
      (i : UpdateInfo)
      → Tiles offset i.byte_len bytes ss
      → i.byte_len ≡ offset + length bytes
      → 0 < length bytes
      → i.next_byte_offset ≡ offset
      → All
          (λ s.
            process_client_update_request frames extend updates prepares i.cipher s.datagram
            ≡ some s.update)
          ss
      → watch_packets frames extend updates prepares new_cipher server_cipher current_version
          (record { active = some i; buffer = buffer; finished = finished })
          (datagrams_of ss)
        ≡ record { active = none; buffer = []; finished = finished ++ (buffer ++ bytes) ∷ [] }
  unfolding Tiles IsChunk watch_packets
  watch_packets-Tiles offset bytes buffer finished [] i t e more hn read =
      absurd (omega (arith, rw t at more))
  watch_packets-Tiles offset bytes buffer finished (s ∷ []) i (c, (rest, e', t)) e more hn (r, _) =
      let len = length-append s.update.bytes [] in
      let whole : length bytes ≡ length s.update.bytes = rw (e', t) (omega arith) in
      let step = process_chunk i.byte_len offset s i c refl hn in
      let done : (offset + length s.update.bytes == i.byte_len) ≡ true = ground arith in
      let expected : (s.update.byte_offset == i.next_byte_offset) ≡ true = ground (arith, c.0) in
      let here = watch_update i s.update s.datagram buffer finished r in
      rw (here, step, done, expected, e', t, append-nil s.update.bytes) refl
  watch_packets-Tiles offset bytes buffer finished (s ∷ s' ∷ ss) i (c, (rest, e', t)) e more hn
        (r, read) =
      let len = length-append s.update.bytes rest in
      let split : length bytes ≡ length s.update.bytes + length rest = rw e' len in
      let left = Tiles-length (offset + length s.update.bytes) i.byte_len rest s' ss t in
      let step = process_chunk i.byte_len offset s i c refl hn in
      let differs = ==_of_ne (offset + length s.update.bytes) i.byte_len (omega arith) in
      let here = watch_update i s.update s.datagram buffer finished r in
      let kept : Watch = record {
        active = some (at_offset (offset + length s.update.bytes) i);
        buffer = buffer ++ s.update.bytes;
        finished = finished;
      } in
      let one : watch_packet frames extend updates prepares new_cipher server_cipher current_version
            (record { active = some i; buffer = buffer; finished = finished }) s.datagram
          ≡ kept =
        here ∙ rw (step, differs) refl in
      let later =
        watch_packets-Tiles (offset + length s.update.bytes) rest (buffer ++ s.update.bytes)
          finished (s' ∷ ss) (at_offset (offset + length s.update.bytes) i) t (omega arith) left
          refl read in
      ap
        (λ w.
          watch_packets frames extend updates prepares new_cipher server_cipher current_version w
            (datagrams_of (s' ∷ ss)))
        one
      ∙ rw (e', ← append_assoc buffer s.update.bytes rest) later

  watch_unread :
      (w : Watch) (d : List ℕ) (new : Option UpdateInfo)
      → active_update frames extend updates prepares w.active d ≡ none
      → prepared frames extend updates prepares new_cipher server_cipher current_version d ≡ new
      → watch_packet frames extend updates prepares new_cipher server_cipher current_version w d
        ≡ record {
          active = next_active none new w.active;
          buffer = (take_packet none new w.buffer w.finished).0;
          finished = (take_packet none new w.buffer w.finished).1;
        }
  unfolding watch_packet
  watch_unread w d new e e' =
      rw
        (
          receive_packet-next_active frames extend updates prepares new_cipher server_cipher
              current_version w.active d,
          e,
          e',
        )
        refl

  pub watch_packets-append :
      (ds ds' : List (List ℕ)) (w : Watch)
      → watch_packets frames extend updates prepares new_cipher server_cipher current_version w
          (ds ++ ds')
        ≡ watch_packets frames extend updates prepares new_cipher server_cipher current_version
            (watch_packets frames extend updates prepares new_cipher server_cipher current_version w
              ds)
            ds'
  unfolding watch_packets
  watch_packets-append [] ds' w = refl
  watch_packets-append (d ∷ ds) ds' w = watch_packets-append ds ds' _

  module _ (p : PrepareForUpdate) (i : UpdateInfo)
      (activates : activate_update_if_new_version new_cipher p current_version ≡ some i) where
    -- Before the first packet of the update, with the update active or not.
    abbrev pub waiting : Bool → Watch
    waiting active = record { active = if active then some i else none; buffer = []; finished = [] }

    unread_waiting :
        (active : Bool) (d : List ℕ)
        → process_client_update_request frames extend updates prepares i.cipher d ≡ none
        → active_update frames extend updates prepares (waiting active).active d ≡ none
    unfolding active_update
    unread_waiting false d h = refl
    unread_waiting true d h = rw h refl

    watch_prepare :
        (active : Bool) (d : List ℕ)
        → process_client_update_request frames extend updates prepares i.cipher d ≡ none
        → process_client_prepare_for_update_request frames extend updates prepares server_cipher d
          ≡ some p
        → watch_packet frames extend updates prepares new_cipher server_cipher current_version
            (waiting active)
            d
          ≡ waiting true
    watch_prepare active d h read =
        watch_unread (waiting active) d (some i) (unread_waiting active d h)
          (rw (read, activates) refl)

    watch_other :
        (active : Bool) (d : List ℕ)
        → process_client_update_request frames extend updates prepares i.cipher d ≡ none
        → process_client_prepare_for_update_request frames extend updates prepares server_cipher d
          ≡ none
        → watch_packet frames extend updates prepares new_cipher server_cipher current_version
            (waiting active)
            d
          ≡ waiting active
    watch_other active d h unread =
        watch_unread (waiting active) d none (unread_waiting active d h) (rw unread refl)

    -- Behind packets that prepare servers, once one of them is for this server.
    pub watch_packets_prepare :
        (active : Bool) (ds : List (List ℕ))
        → All
            (λ d. process_client_update_request frames extend updates prepares i.cipher d ≡ none)
            ds
        → All
            (λ d.
              (q : PrepareForUpdate)
              → process_client_prepare_for_update_request frames extend updates prepares
                  server_cipher d
                ≡ some q
              → q ≡ p)
            ds
        → (active ≡ true)
          ⊎ AnyOf
              (λ d.
                process_client_prepare_for_update_request frames extend updates prepares
                  server_cipher d
                ≡ some p)
              ds
        → watch_packets frames extend updates prepares new_cipher server_cipher current_version
            (waiting active)
            ds
          ≡ waiting true
    unfolding watch_packets
    watch_packets_prepare active [] unread own (inl e) = ap waiting e
    watch_packets_prepare active [] unread own (inr any) = absurd any
    watch_packets_prepare active (d ∷ ds) (h, unread) (o, own) for_it =
        let go = λ (w : Watch).
          watch_packets frames extend updates prepares new_cipher server_cipher current_version w
            ds in
        elim (Option-cases (
          process_client_prepare_for_update_request frames extend updates prepares server_cipher
            d)) [
              | inr (q, read) ↦
                  ap go (watch_prepare active d h (read ∙ ap some (o q read)))
                  ∙ watch_packets_prepare true ds unread own (inl refl)
              | inl none_read ↦
                  ap go (watch_other active d h none_read)
                  ∙ watch_packets_prepare active ds unread own (elim for_it [
                    | inl e ↦ inl e
                    | inr (inl read) ↦ absurd (ground arith)
                    | inr (inr later) ↦ inr later
                  ])
            ]
