-- ===== src/Data/Update/Delivery.antt =====
-- data/examples/update/main.rs: the client's update from its bytes to a server that has its key.
use flip_flop_protocol.Common.{
  ℕ, suc, ◌^◌, ◌<◌, ◌≡◌, sym, ap, ◌∙◌, arith, Bool, true, List, [], length,
}
use flip_flop_protocol.Common.{suc, min, All, some}
use flip_flop_protocol.Common.Words.{IsByte}
use flip_flop_protocol.Data.Crates.{Cipher, IsAead, Extend, IsExtend, Codec, IsCodec}
use flip_flop_protocol.Data.Frame.{DataFrame, IsFrame, frame_bytes, mic_size}
use flip_flop_protocol.Data.Discovery.{min_packet_size}
use flip_flop_protocol.Data.Update.{PrepareForUpdate}
use flip_flop_protocol.Data.Update.Packets.{
  IsUpdateBytes, process_client_update_request-create_update_request,
}
use flip_flop_protocol.Common.Outcome.{Outcome, returns}
use flip_flop_protocol.Data.Update.{Update}
use flip_flop_protocol.Data.Update.Client.{Sent, FromSlice, IsFromSlice, update_servers}
use flip_flop_protocol.Data.Update.Chunks.{Tiles, IsUpdate, update_loop-Tiles}
use flip_flop_protocol.Data.Update.Client.{create_update_request, update_bytes_processing_threshold}
use flip_flop_protocol.Data.Update.Server.{
  process_client_update_request, UpdateInfo, process_updates,
}
use flip_flop_protocol.Data.Update.Transfer.{
  updates_of, remove, at_offset, process_updates-Tiles, process_updates-remove,
}

module _ {E : Type 0} {frames : Codec E DataFrame} (codec : IsCodec frames IsFrame frame_bytes)
    {extend : Extend} (vectors : IsExtend extend) {updates : Codec E Update}
    {update_bytes : Update → List ℕ} (update_codec : IsCodec updates IsUpdate update_bytes)
    (bytes_laws : IsUpdateBytes update_bytes) (prepares : Codec E PrepareForUpdate)
    {from_slice : FromSlice} (vec : IsFromSlice from_slice) (new_cipher : List ℕ → Cipher)
    (aead : (k : List ℕ) → IsAead mic_size (new_cipher k)) (accepts : ℕ → Bool)
    (open_channel : (o : ℕ) → accepts o ≡ true) (bytes update_key : List ℕ) where
  -- The server that has the update's key reads each packet's update in its datagram.
  abbrev pub IsRead : List ℕ → Update → Type 0
  IsRead datagram u =
      process_client_update_request frames extend updates prepares (new_cipher update_key) datagram
      ≡ some u

  -- For an update below 2 ^ 28 bytes and a channel that takes every packet, the loop returns
  -- packets that hold the update's bytes in order, each at its offset with 1 to 27 bytes and none
  -- across a multiple of 4096, the long pause follows exactly where a packet ends at a multiple of
  -- 4096 or at the end, and a server that has the key reads each packet's update in its datagram.
  pub update_servers-Tiles :
      (frame_counter : ℕ) (datagram_buf : List ℕ)
      → length bytes < 2 ^ 28
      → All IsByte bytes
      → frame_counter < 2 ^ 16
      → length datagram_buf ≡ min_packet_size
      → (ss : List Sent) × (update_servers frames extend updates from_slice new_cipher accepts bytes
            update_key
            (length bytes)
            frame_counter
            datagram_buf
          ≡ returns ss)
        × Tiles 0 (length bytes) bytes ss
        × All (λ s. IsRead s.datagram s.update) ss
  unfolding update_servers
  update_servers-Tiles frame_counter datagram_buf hl hb hf hs =
      update_loop-Tiles from_slice vec bytes
        (create_update_request frames extend updates (new_cipher update_key)) IsRead min_packet_size
        (process_client_update_request-create_update_request codec vectors update_codec bytes_laws
          prepares (aead update_key))
        accepts open_channel (suc (length bytes)) 0
        (min update_bytes_processing_threshold (length bytes)) frame_counter datagram_buf
        (omega arith) (omega arith) hl hb (λ h. omega arith) hf hs

  -- For an update of 1 to 2 ^ 28 - 1 bytes and a channel that takes every packet, the client's
  -- loop returns, a server that has the update's key reads each packet's update in its datagram,
  -- and if its active update has that length and starts at 0, it finishes behind the packets, with
  -- every byte counted.
  pub update_servers-process_updates :
      (frame_counter : ℕ) (datagram_buf : List ℕ) (update_info : UpdateInfo)
      → 0 < length bytes
      → length bytes < 2 ^ 28
      → All IsByte bytes
      → frame_counter < 2 ^ 16
      → length datagram_buf ≡ min_packet_size
      → update_info.byte_len ≡ length bytes
      → update_info.next_byte_offset ≡ 0
      → (ss : List Sent) × (update_servers frames extend updates from_slice new_cipher accepts bytes
            update_key
            (length bytes)
            frame_counter
            datagram_buf
          ≡ returns ss)
        × All (λ s. IsRead s.datagram s.update) ss
        × (process_updates update_info (updates_of ss)
            ≡ (true, at_offset (length bytes) update_info))
  update_servers-process_updates frame_counter datagram_buf update_info h hl hb hf hs h₁ h₂ =
      let (ss, ran, tiles, read) = update_servers-Tiles frame_counter datagram_buf hl hb hf hs in
      (
        ss,
        ran,
        read,
        process_updates-Tiles (length bytes) 0 bytes ss update_info tiles (omega arith) h h₁ h₂,
      )

  sent_of : Outcome (List Sent) → List Sent
  sent_of (returns ss) = ss
  sent_of _ = []

  -- If any one of the packets that were sent for an update below 2 ^ 28 bytes does not arrive, a
  -- server that has its active update at 0 and of its length does not count up to its end.
  pub update_servers-remove :
      (frame_counter k : ℕ) (datagram_buf : List ℕ) (update_info : UpdateInfo) (ss : List Sent)
      → length bytes < 2 ^ 28
      → All IsByte bytes
      → frame_counter < 2 ^ 16
      → length datagram_buf ≡ min_packet_size
      → update_info.byte_len ≡ length bytes
      → update_info.next_byte_offset ≡ 0
      → update_servers frames extend updates from_slice new_cipher accepts bytes update_key
          (length bytes)
          frame_counter
          datagram_buf
        ≡ returns ss
      → k < length ss
      → (process_updates update_info (updates_of (remove k ss))).1.next_byte_offset < length bytes
  unfolding sent_of
  update_servers-remove frame_counter k datagram_buf update_info ss hl hb hf hs h₁ h₂ e h =
      let (ss', ran, tiles, read) = update_servers-Tiles frame_counter datagram_buf hl hb hf hs in
      let same : ss' ≡ ss = ap sent_of (sym ran ∙ e) in
      process_updates-remove (length bytes) k 0 bytes ss update_info (rw same at tiles) h
        (omega arith) h₁ h₂
