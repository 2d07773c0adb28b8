-- ===== src/Data/Update/Whole.antt =====
-- data/examples/update/main.rs: the client's task and the task of the one server that `main` starts.
mod Examples
use flip_flop_protocol.Common.{
  ℕ, ◌+◌, ◌^◌, ◌<◌, ◌≡◌, refl, ap, arith, Bool, true, Option, none, some, List, [], ◌∷◌, ◌++◌,
  length, take, All,
}
use flip_flop_protocol.Common.Words.{IsByte}
use flip_flop_protocol.Common.Text.{codes, split_once, parse_u8, after_once}
use flip_flop_protocol.Common.Outcome.{Outcome, returns, unwrap, ◌>>=◌}
use flip_flop_protocol.Data.Crates.{Cipher, IsAead, Extend, IsExtend, Codec, IsCodec}
use flip_flop_protocol.Data.Frame.{DataFrame, IsFrame, frame_bytes, mic_size}
use flip_flop_protocol.Data.Update.{Update, PrepareForUpdate, Version}
use flip_flop_protocol.Data.Update.Text.{from_str}
use flip_flop_protocol.Data.Update.Order.{version_cmp}
use flip_flop_protocol.Data.Update.Client.{FromSlice, IsFromSlice, Sent}
use flip_flop_protocol.Data.Update.Chunks.{IsUpdate, Tiles}
use flip_flop_protocol.Data.Update.Packets.{IsUpdateBytes}
use flip_flop_protocol.Data.Update.Task.{client_task-Tiles}
use flip_flop_protocol.Data.Update.Server.{
  UpdateInfo, process_client_update_request, activate_update_if_new_version, receive_packets,
}
use flip_flop_protocol.Data.Update.Prepare.{ServerKey, prepare_for_update, client_task}
use flip_flop_protocol.Data.Update.Prepared.{IsPrepare, IsPrepareBytes, ArePrepared}
use flip_flop_protocol.Data.Update.Session.{
  datagrams_of, sent_bytes, sent_bytes-Tiles, progress, receive_packet_prepare,
  receive_packets-Tiles,
}

module _ {E : Type 0} (frames : Codec E DataFrame) (extend : Extend) (updates : Codec E Update)
    (prepares : Codec E PrepareForUpdate) (new_cipher : List ℕ → Cipher) where
  -- The packets in the order that the channel gives them in.
  unfoldable pub server_task : ServerKey → List (List ℕ) → Outcome (Option UpdateInfo)
  server_task server packets = do
    current_version ← unwrap (from_str (codes "1.2.0"))
    returns (
        receive_packets frames extend updates prepares new_cipher (new_cipher server.network_key)
          current_version none packets)

abbrev pub update_info_of : (List ℕ → Cipher) → List ℕ → ℕ → UpdateInfo
update_info_of new_cipher update_key update_len = record {
  cipher = new_cipher update_key;
  byte_len = update_len;
  next_byte_offset = 0;
}

-- What `main` runs.
abbrev pub current : Version
current = record { major = 1; minor = 2; patch = 0; pre = none }

pub from_str-current : from_str (codes "1.2.0") ≡ some current
unfolding from_str split_once parse_u8 after_once
from_str-current = refl

pub activate-prepare_for_update :
    (new_cipher : List ℕ → Cipher) (update_key : List ℕ) (update_len : ℕ)
    → update_len < 2 ^ 32
    → activate_update_if_new_version new_cipher (prepare_for_update update_key update_len) current
      ≡ some (update_info_of new_cipher update_key update_len)
unfolding activate_update_if_new_version version_cmp
activate-prepare_for_update new_cipher update_key update_len h = ground arith

module _ {E : Type 0} (frames : Codec E DataFrame) (extend : Extend) (updates : Codec E Update)
    (prepares : Codec E PrepareForUpdate) (new_cipher : List ℕ → Cipher) (server : ServerKey)
    (update_key bytes : List ℕ) (ss : List Sent) (tiles : Tiles 0 (length bytes) bytes ss)
    (read : All
      (λ s.
        process_client_update_request frames extend updates prepares
          (new_cipher update_key)
          s.datagram
        ≡ some s.update)
      ss)
    (more : 0 < length bytes) (small : length bytes < 2 ^ 32) where
  server_task-ArePrepared :
      (k : ℕ) (ds : List (List ℕ))
      → ArePrepared frames extend updates prepares new_cipher update_key
          (length bytes)
          (server ∷ [])
          ds
      → server_task frames extend updates prepares new_cipher server
          (ds ++ datagrams_of (take k ss))
        ≡ returns (
            progress (update_info_of new_cipher update_key (length bytes)) (sent_bytes (take k ss)))
  unfolding server_task receive_packets
  server_task-ArePrepared k [] p = absurd p
  server_task-ArePrepared k (d ∷ d' ∷ ds) (p, e) = absurd (ground arith)
  server_task-ArePrepared k (d ∷ []) (p, e) =
      let prepares_it =
        receive_packet_prepare frames extend updates prepares new_cipher
          (new_cipher server.network_key) current d (prepare_for_update update_key (length bytes))
          p in
      let active = activate-prepare_for_update new_cipher update_key (length bytes) small in
      let runs =
        receive_packets-Tiles frames extend updates prepares new_cipher
          (new_cipher server.network_key) current k 0 bytes ss
          (update_info_of new_cipher update_key (length bytes)) tiles (omega arith) more refl
          read in
      let whole : 0 + sent_bytes (take k ss) ≡ sent_bytes (take k ss) = omega arith in
      rw (from_str-current, receive_packets, prepares_it, active) (ap returns (rw whole at runs))

module _ {E : Type 0} {frames : Codec E DataFrame} (codec : IsCodec frames IsFrame frame_bytes)
    {extend : Extend} (vectors : IsExtend extend) {updates : Codec E Update}
    {update_bytes : Update → List ℕ} (update_codec : IsCodec updates IsUpdate update_bytes)
    (update_laws : IsUpdateBytes update_bytes) {prepares : Codec E PrepareForUpdate}
    {prepare_bytes : PrepareForUpdate → List ℕ}
    (prepare_codec : IsCodec prepares IsPrepare prepare_bytes)
    (prepare_laws : IsPrepareBytes prepare_bytes) {from_slice : FromSlice}
    (vec : IsFromSlice from_slice) (new_cipher : List ℕ → Cipher)
    (aead : (k : List ℕ) → IsAead mic_size (new_cipher k)) (accepts : ℕ → Bool)
    (open_channel : (o : ℕ) → accepts o ≡ true) (bytes update_key : List ℕ)
    (server : ServerKey) where
  -- For 1 to 2 ^ 28 - 1 bytes, a key of 16 bytes, one server and a channel that takes every
  -- packet, the client's task returns packets that hold as many bytes as the update has; behind
  -- those that prepare and any number of the first packets of the update, the server's task has
  -- the update active at the number of bytes sent in them, and none active once that is all.
  pub server_task-client_task :
      (k : ℕ)
      → 0 < length bytes
      → length bytes < 2 ^ 28
      → All IsByte bytes
      → All IsByte update_key
      → length update_key ≡ 16
      → (prepared : List (List ℕ)) × (ss : List Sent) × (client_task frames extend updates prepares
            from_slice new_cipher accepts accepts bytes
            (server ∷ [])
            update_key
          ≡ returns (prepared, ss))
        × (sent_bytes ss ≡ length bytes)
        × (server_task frames extend updates prepares new_cipher server
              (prepared ++ datagrams_of (take k ss))
            ≡ returns (
                progress
                  (update_info_of new_cipher update_key (length bytes))
                  (sent_bytes (take k ss))))
  server_task-client_task k more hl hb hk hk' =
      let (preparing, ss, runs, all, tiles, read) =
        client_task-Tiles codec vectors update_codec update_laws prepare_codec prepare_laws vec
          new_cipher aead accepts open_channel bytes update_key (server ∷ []) hl hb hk hk' in
      (
        preparing,
        ss,
        runs,
        sent_bytes-Tiles 0 (length bytes) bytes ss tiles,
        server_task-ArePrepared frames extend updates prepares new_cipher server update_key bytes ss
            tiles read more (omega arith) k preparing all,
      )
