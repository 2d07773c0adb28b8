-- ===== src/Data/Update/Session.antt =====
-- data/examples/update/main.rs: a server's loop over the packets of an update.
use flip_flop_protocol.Common.{
  ℕ, zero, suc, ◌+◌, ◌<◌, ◌≡◌, refl, arith, true, Option, none, some, List, [], ◌∷◌, ◌==◌, length,
  take, length-append, if◌then◌else◌, ==_of_ne, All,
}
use flip_flop_protocol.Data.Crates.{Cipher, Extend, Codec}
use flip_flop_protocol.Data.Frame.{DataFrame}
use flip_flop_protocol.Data.Update.{Update, PrepareForUpdate, Version}
use flip_flop_protocol.Data.Update.Client.{Sent}
use flip_flop_protocol.Data.Update.Chunks.{Tiles}
use flip_flop_protocol.Data.Update.Server.{
  UpdateInfo, process_client_update_request, process_client_prepare_for_update_request,
  process_active_update, activate_update_if_new_version, active_update, receive_packet,
  receive_packets,
}
use flip_flop_protocol.Data.Update.Transfer.{at_offset, process_chunk, Tiles-length}

abbrev pub datagrams_of : List Sent → List (List ℕ)
datagrams_of [] = []
datagrams_of (s ∷ ss) = s.datagram ∷ datagrams_of ss

-- How many bytes of the update are in packets.
abbrev pub sent_bytes : List Sent → ℕ
sent_bytes [] = 0
sent_bytes (s ∷ ss) = length s.update.bytes + sent_bytes ss

pub sent_bytes-Tiles :
    (offset total : ℕ) (bytes : List ℕ) (ss : List Sent)
    → Tiles offset total bytes ss
    → sent_bytes ss ≡ length bytes
unfolding Tiles
sent_bytes-Tiles offset total bytes [] t = rw t refl
sent_bytes-Tiles offset total bytes (s ∷ ss) (c, (rest, e, t)) =
    let more = sent_bytes-Tiles (offset + length s.update.bytes) total rest ss t in
    rw e (omega (arith, length-append s.update.bytes rest))

take-nil : {A : Type 0} (k : ℕ) → take {A = A} k [] ≡ []
take-nil zero = refl
take-nil (suc k) = refl

-- An active update at the number of bytes that arrived, over once all have.
abbrev pub progress : UpdateInfo → ℕ → Option UpdateInfo
progress update_info n = if n == update_info.byte_len then none else some (at_offset n update_info)

module _ {E : Type 0} (frames : Codec E DataFrame) (extend : Extend) (updates : Codec E Update)
    (prepares : Codec E PrepareForUpdate) (new_cipher : List ℕ → Cipher) (server_cipher : Cipher)
    (current_version : Version) where
  pub receive_packet_update :
      (update_info : UpdateInfo) (d : List ℕ) (u : Update)
      → process_client_update_request frames extend updates prepares update_info.cipher d ≡ some u
      → receive_packet frames extend updates prepares new_cipher server_cipher current_version
          (some update_info)
          d
        ≡ (if (process_active_update update_info u).0
            then none
            else some (process_active_update update_info u).1)
  unfolding receive_packet active_update
  receive_packet_update update_info d u h = rw (h, receive_packet) refl

  pub receive_packet_prepare :
      (d : List ℕ) (p : PrepareForUpdate)
      → process_client_prepare_for_update_request frames extend updates prepares server_cipher d
        ≡ some p
      → receive_packet frames extend updates prepares new_cipher server_cipher current_version none
          d
        ≡ activate_update_if_new_version new_cipher p current_version
  unfolding receive_packet active_update
  receive_packet_prepare d p h =
      rw (h, receive_packet) (kept (activate_update_if_new_version new_cipher p current_version))
    where
      kept : (o : Option UpdateInfo) → (elim o [ some i ↦ some i | none ↦ none ]) ≡ o
      kept none = refl
      kept (some i) = refl

  pub receive_packets-Tiles :
      (k offset : ℕ) (bytes : List ℕ) (ss : List Sent) (update_info : UpdateInfo)
      → Tiles offset update_info.byte_len bytes ss
      → update_info.byte_len ≡ offset + length bytes
      → 0 < length bytes
      → update_info.next_byte_offset ≡ offset
      → All
          (λ s.
            process_client_update_request frames extend updates prepares update_info.cipher
              s.datagram
            ≡ some s.update)
          ss
      → receive_packets frames extend updates prepares new_cipher server_cipher current_version
          (some update_info)
          (datagrams_of (take k ss))
        ≡ progress update_info (offset + sent_bytes (take k ss))
  unfolding Tiles receive_packets
  receive_packets-Tiles zero offset bytes ss update_info t e more hn read = ground arith
  receive_packets-Tiles (suc k) offset bytes [] update_info t e more hn read =
      absurd (omega (arith, rw t at more))
  receive_packets-Tiles (suc k) offset bytes (s ∷ []) update_info (c, (rest, e', t)) e more hn
        (r, _) =
      let len = length-append s.update.bytes [] in
      let whole : length bytes ≡ length s.update.bytes = rw (e', t) (omega arith) in
      let all : offset + length s.update.bytes ≡ update_info.byte_len = omega arith in
      let here = receive_packet_update update_info s.datagram s.update r in
      let step = process_chunk update_info.byte_len offset s update_info c refl hn in
      let done : (offset + length s.update.bytes == update_info.byte_len) ≡ true = ground arith in
      let sum : offset + (length s.update.bytes + 0) ≡ offset + length s.update.bytes =
        omega arith in
      rw (take-nil {A = Sent} k, here, step, sum, done) refl
  receive_packets-Tiles (suc k) offset bytes (s ∷ s' ∷ ss) update_info (c, (rest, e', t)) e more hn
        (r, read) =
      let len = length-append s.update.bytes rest in
      let split : length bytes ≡ length s.update.bytes + length rest = rw e' len in
      let left = Tiles-length (offset + length s.update.bytes) update_info.byte_len rest s' ss t in
      let here = receive_packet_update update_info s.datagram s.update r in
      let step = process_chunk update_info.byte_len offset s update_info c refl hn in
      let differs = ==_of_ne (offset + length s.update.bytes) update_info.byte_len (omega arith) in
      let later =
        receive_packets-Tiles k (offset + length s.update.bytes) rest (s' ∷ ss)
          (at_offset (offset + length s.update.bytes) update_info) t (omega arith) left refl read in
      let sum : offset + (length s.update.bytes + sent_bytes (take k (s' ∷ ss)))
          ≡ offset + length s.update.bytes + sent_bytes (take k (s' ∷ ss)) =
        omega arith in
      rw (here, receive_packets, step, differs, sum) later
