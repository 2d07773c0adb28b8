-- ===== src/Data/Update/Server.antt =====
-- data/examples/update/main.rs: a server takes part in an update.
use flip_flop_protocol.Common.{
  ℕ, ◌+◌, Bool, true, false, not, ◌&&◌, Option, none, some, List, [], ◌∷◌, ◌==◌, if◌then◌else◌,
  length,
}
use flip_flop_protocol.Common.Result.{to_option}
use Prim.Native.Nat.{Ordering}
use Prim.Native.Nat.Ordering.{lt, eq, gt}
use flip_flop_protocol.Common.Text.{◌>>=◌}
use flip_flop_protocol.Data.Crates.{Cipher, Extend, Codec}
use flip_flop_protocol.Data.Header.{Header, DataSource, client, server}
use flip_flop_protocol.Data.Frame.{DataFrame}
use flip_flop_protocol.Data.Frame.Decode.{from_datagram}
use flip_flop_protocol.Data.Update.{Update, PrepareForUpdate, Version}
use flip_flop_protocol.Data.Update.Order.{version_cmp}

pub record UpdateInfo : Type 0 where
  pub cipher : Cipher
  pub byte_len : ℕ
  pub next_byte_offset : ℕ

-- The result says whether the update is over, finished or abandoned.
unfoldable pub process_active_update : UpdateInfo → Update → Bool × UpdateInfo
process_active_update update_info update =
    if not (update.byte_offset == update_info.next_byte_offset)
    then (true, update_info)
    else let next = update_info.next_byte_offset + length update.bytes in
      (next == update_info.byte_len, record update_info { next_byte_offset = next })

-- `prepare_for_update.version > current_version`
abbrev pub is_gt : Ordering → Bool
is_gt lt = false
is_gt eq = false
is_gt gt = true

-- `AesCcm::new` is a parameter.
unfoldable pub activate_update_if_new_version :
    (List ℕ → Cipher) → PrepareForUpdate → Version → Option UpdateInfo
activate_update_if_new_version new_cipher prepare_for_update current_version =
    if is_gt (version_cmp prepare_for_update.version current_version)
    then some (record {
      cipher = new_cipher prepare_for_update.update_key.key;
      byte_len = prepare_for_update.update_byte_len;
      next_byte_offset = 0;
    })
    else none

abbrev pub is_client : DataSource → Bool
is_client client = true
is_client server = false

-- The filter of both requests.
abbrev pub is_update_request : Header → Bool
is_update_request h = h.server_address == 0x00 && h.server_port == 0x01 && is_client h.source

module _ {E : Type 0} (frames : Codec E DataFrame) (extend : Extend) (updates : Codec E Update)
    (prepares : Codec E PrepareForUpdate) where
  unfoldable pub process_client_update_request : Cipher → List ℕ → Option Update
  process_client_update_request cipher datagram_buf =
      to_option (from_datagram frames extend cipher datagram_buf is_update_request) >>= λ (_, b).
      to_option (updates.from_bytes b)

  unfoldable pub process_client_prepare_for_update_request :
      Cipher → List ℕ → Option PrepareForUpdate
  process_client_prepare_for_update_request cipher datagram_buf =
      to_option (from_datagram frames extend cipher datagram_buf is_update_request) >>= λ (_, b).
      to_option (prepares.from_bytes b)

  -- The update that a packet carries for the active update, with its state.
  unfoldable pub active_update : Option UpdateInfo → List ℕ → Option (UpdateInfo × Update)
  active_update none encrypted_payload = none
  active_update (some update_info) encrypted_payload =
      process_client_update_request update_info.cipher encrypted_payload >>= λ update.
      some (update_info, update)

  -- A round of the server's loop: `active_update_info` behind a packet.
  unfoldable pub receive_packet :
      (List ℕ → Cipher) → Cipher → Version → Option UpdateInfo → List ℕ → Option UpdateInfo
  unfolding active_update process_active_update process_client_prepare_for_update_request
      activate_update_if_new_version
  receive_packet new_cipher server_cipher current_version active_update_info encrypted_payload =
      elim (active_update active_update_info encrypted_payload) [
        | some (update_info, update) ↦
            let (over, update_info') = process_active_update update_info update in
            if over then none else some update_info'
        | none ↦
            elim (process_client_prepare_for_update_request server_cipher encrypted_payload >>= λ p.
            activate_update_if_new_version new_cipher p current_version) [
              | some new_active_update_info ↦ some new_active_update_info
              | none ↦ active_update_info
            ]
      ]

  unfoldable pub receive_packets :
      (List ℕ → Cipher) → Cipher → Version → Option UpdateInfo → List (List ℕ) → Option UpdateInfo
  unfolding receive_packet
  receive_packets new_cipher server_cipher current_version active_update_info [] =
      active_update_info
  receive_packets new_cipher server_cipher current_version active_update_info (d ∷ ds) =
      receive_packets new_cipher server_cipher current_version
        (receive_packet new_cipher server_cipher current_version active_update_info d) ds

-- The updates of packets in the order that they come in, up to the one that ends it.
unfoldable pub process_updates : UpdateInfo → List Update → Bool × UpdateInfo
unfolding process_active_update
process_updates update_info [] = (false, update_info)
process_updates update_info (u ∷ us) =
    let (over, update_info') = process_active_update update_info u in
    let rest = process_updates update_info' us in if over then (true, update_info') else rest
