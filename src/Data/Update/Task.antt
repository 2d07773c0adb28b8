-- ===== src/Data/Update/Task.antt =====
-- data/examples/update/main.rs: what the client's task sends.
use flip_flop_protocol.Common.{
  ℕ, ◌^◌, ◌<◌, ◌≡◌, refl, arith, Bool, true, some, List, length, replicate, length-replicate, All,
}
use flip_flop_protocol.Common.Words.{IsByte}
use flip_flop_protocol.Common.Outcome.{returns}
use flip_flop_protocol.Data.Crates.{Cipher, IsAead, Extend, IsExtend, Codec, IsCodec}
use flip_flop_protocol.Data.Frame.{DataFrame, IsFrame, frame_bytes, mic_size}
use flip_flop_protocol.Data.Discovery.{min_packet_size}
use flip_flop_protocol.Data.Update.{Update, PrepareForUpdate}
use flip_flop_protocol.Data.Update.Client.{FromSlice, IsFromSlice, Sent}
use flip_flop_protocol.Data.Update.Chunks.{IsUpdate, Tiles}
use flip_flop_protocol.Data.Update.Packets.{IsUpdateBytes}
use flip_flop_protocol.Data.Update.Delivery.{update_servers-Tiles}
use flip_flop_protocol.Data.Update.Server.{process_client_update_request}
use flip_flop_protocol.Data.Update.Prepare.{ServerKey, client_task}
use flip_flop_protocol.Data.Update.Prepared.{
  IsPrepare, IsPrepareBytes, ArePrepared, prepare_for_update-IsPrepare,
  prepare_servers_for_update-ArePrepared,
}

module _ {E : Type 0} {frames : Codec E DataFrame} (codec : IsCodec frames IsFrame frame_bytes)
    {extend : Extend} (vectors : IsExtend extend) {updates : Codec E Update}
    {update_bytes : Update → List ℕ} (update_codec : IsCodec updates IsUpdate update_bytes)
    (update_laws : IsUpdateBytes update_bytes) {prepares : Codec E PrepareForUpdate}
    {prepare_bytes : PrepareForUpdate → List ℕ}
    (prepare_codec : IsCodec prepares IsPrepare prepare_bytes)
    (prepare_laws : IsPrepareBytes prepare_bytes) {from_slice : FromSlice}
    (vec : IsFromSlice from_slice) (new_cipher : List ℕ → Cipher)
    (aead : (k : List ℕ) → IsAead mic_size (new_cipher k)) (accepts : ℕ → Bool)
    (open_channel : (o : ℕ) → accepts o ≡ true) (bytes update_key : List ℕ)
    (servers : List ServerKey) where
  -- The task returns a packet for each server, which that server reads, and packets with the
  -- update's bytes in order, which are read under the update's key.
  pub client_task-Tiles :
      length bytes < 2 ^ 28
      → All IsByte bytes
      → All IsByte update_key
      → length update_key ≡ 16
      → (preparing : List (List ℕ)) × (ss : List Sent) × (client_task frames extend updates prepares
            from_slice new_cipher accepts accepts bytes servers update_key
          ≡ returns (preparing, ss))
        × ArePrepared frames extend updates prepares new_cipher update_key
            (length bytes)
            servers
            preparing
        × Tiles 0 (length bytes) bytes ss
        × All
            (λ s.
              process_client_update_request frames extend updates prepares
                (new_cipher update_key)
                s.datagram
              ≡ some s.update)
            ss
  unfolding client_task
  client_task-Tiles hl hb hk hk' =
      let request = prepare_for_update-IsPrepare update_key (length bytes) hk hk' in
      let (out, prepared, counter, size, all) =
        prepare_servers_for_update-ArePrepared codec vectors updates prepare_codec prepare_laws
          new_cipher aead accepts open_channel update_key (length bytes) servers 0
          (replicate min_packet_size 0) request (omega arith)
          (length-replicate {A = ℕ} min_packet_size 0) in
      let (ss, ran, tiles, read) =
        update_servers-Tiles codec vectors update_codec update_laws prepares vec new_cipher aead
          accepts open_channel bytes update_key out.frame_counter out.datagram_buf hl hb counter
          size in
      (out.datagrams, ss, rw (prepared, ran) refl, all, tiles, read)
