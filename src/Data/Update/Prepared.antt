-- ===== src/Data/Update/Prepared.antt =====
-- data/examples/update/main.rs: what a server reads in the packet that prepares it.
use flip_flop_protocol.Common.{
  ℕ, ◌+◌, ◌^◌, ◌≤◌, ◌<◌, ◌≡◌, refl, arith, ap, ◌∙◌, sym, append-nil, Bool, true, some, List, [],
  ◌∷◌, length, All,
}
use flip_flop_protocol.Common.Words.{u16, IsByte}
use flip_flop_protocol.Common.Outcome.{returns}
use flip_flop_protocol.Data.Crates.{Cipher, IsAead, Extend, IsExtend, Codec, IsCodec}
use flip_flop_protocol.Data.Frame.{DataFrame, IsFrame, frame_bytes, mic_size}
use flip_flop_protocol.Data.Frame.RoundTrip.{from_datagram-to_datagram}
use flip_flop_protocol.Data.Discovery.{min_payload_size, min_packet_size}
use flip_flop_protocol.Data.Update.{Update, IsVersion, PrepareForUpdate}
use flip_flop_protocol.Data.Update.Client.{request_header}
use flip_flop_protocol.Data.Update.Prepare.{
  ServerKey, prepare_for_update, Prepared, create_prepare_update_request,
  prepare_servers_for_update,
}
use flip_flop_protocol.Data.Update.Server.{
  process_client_prepare_for_update_request, is_update_request,
}
use flip_flop_protocol.Data.Update.Packets.{request_header-IsHeader}

-- The widths of the fields' Rust types.
pub record IsPrepare (p : PrepareForUpdate) : Type 0 where
  pub version : IsVersion p.version
  pub ports_u8 : IsByte p.server_ports
  pub key_u8 : All IsByte p.update_key.key
  pub key_len : length p.update_key.key ≡ 16
  pub len_u32 : p.update_byte_len < 2 ^ 32

-- postcard's encoding of such a message fits a packet.
pub record IsPrepareBytes (prepare_bytes : PrepareForUpdate → List ℕ) : Type 0 where
  pub prepare_bytes_fit :
      (p : PrepareForUpdate) → IsPrepare p → length (prepare_bytes p) ≤ min_payload_size
  pub prepare_bytes_u8 : (p : PrepareForUpdate) → IsPrepare p → All IsByte (prepare_bytes p)

pub prepare_for_update-IsPrepare :
    (update_key : List ℕ) (update_len : ℕ)
    → All IsByte update_key
    → length update_key ≡ 16
    → IsPrepare (prepare_for_update update_key update_len)
prepare_for_update-IsPrepare update_key update_len h l = record {
  version = omega arith;
  ports_u8 = omega arith;
  key_u8 = h;
  key_len = l;
  len_u32 = omega arith;
}

module _ {E : Type 0} (frames : Codec E DataFrame) (extend : Extend) (updates : Codec E Update)
    (prepares : Codec E PrepareForUpdate) (new_cipher : List ℕ → Cipher) (update_key : List ℕ)
    (update_len : ℕ) where
  -- One packet for each server, which that server reads.
  abbrev pub ArePrepared : List ServerKey → List (List ℕ) → Type 0
  ArePrepared [] ds = ds ≡ []
  ArePrepared (server ∷ servers) [] = ⊥
  ArePrepared (server ∷ servers) (d ∷ ds) =
      (process_client_prepare_for_update_request frames extend updates prepares
          (new_cipher server.network_key) d
        ≡ some (prepare_for_update update_key update_len))
      × ArePrepared servers ds

module _ {E : Type 0} {frames : Codec E DataFrame} (codec : IsCodec frames IsFrame frame_bytes)
    {extend : Extend} (vectors : IsExtend extend) (updates : Codec E Update)
    {prepares : Codec E PrepareForUpdate} {prepare_bytes : PrepareForUpdate → List ℕ}
    (prepare_codec : IsCodec prepares IsPrepare prepare_bytes)
    (bytes_laws : IsPrepareBytes prepare_bytes) where
  pub process_client_prepare_for_update_request-create_prepare_update_request :
      {cipher : Cipher} (aead : IsAead mic_size cipher) (p : PrepareForUpdate) (frame_counter : ℕ)
      (buf : List ℕ)
      → IsPrepare p
      → frame_counter < 2 ^ 16
      → length buf ≡ min_packet_size
      → (out : List ℕ) × (create_prepare_update_request frames extend prepares cipher p
            frame_counter buf
          ≡ returns out)
        × (length out ≡ min_packet_size)
        × (process_client_prepare_for_update_request frames extend updates prepares cipher out
            ≡ some p)
  unfolding create_prepare_update_request process_client_prepare_for_update_request
  process_client_prepare_for_update_request-create_prepare_update_request aead p frame_counter buf v
        hf hs =
      let text = prepare_bytes p in
      let fit = bytes_laws.prepare_bytes_fit p v in
      let read_back =
        ap prepares.from_bytes (sym (append-nil text)) ∙ prepare_codec.from_bytes-append p [] v in
      let (out, made, size, read) =
        from_datagram-to_datagram codec vectors aead (request_header frame_counter) text buf
          is_update_request (request_header-IsHeader frame_counter hf)
          (bytes_laws.prepare_bytes_u8 p v) (omega arith) (omega arith) refl in
      (
        out,
        rw (prepare_codec.to_vec_fits p min_payload_size v fit) made,
        omega arith,
        rw (read, read_back) refl,
      )

  module _ (new_cipher : List ℕ → Cipher) (aead : (k : List ℕ) → IsAead mic_size (new_cipher k))
      (accepts : ℕ → Bool) (open_channel : (a : ℕ) → accepts a ≡ true) (update_key : List ℕ)
      (update_len : ℕ) where
    pub prepare_servers_for_update-ArePrepared :
        (servers : List ServerKey) (frame_counter : ℕ) (buf : List ℕ)
        → IsPrepare (prepare_for_update update_key update_len)
        → frame_counter < 2 ^ 16
        → length buf ≡ min_packet_size
        → (out : Prepared) × (prepare_servers_for_update frames extend prepares new_cipher accepts
              update_key update_len servers frame_counter buf
            ≡ returns out)
          × (out.frame_counter < 2 ^ 16)
          × (length out.datagram_buf ≡ min_packet_size)
          × ArePrepared frames extend updates prepares new_cipher update_key update_len servers
              out.datagrams
    unfolding prepare_servers_for_update
    prepare_servers_for_update-ArePrepared [] frame_counter buf v hf hs = (
      record { datagrams = []; frame_counter = frame_counter; datagram_buf = buf },
      refl,
      hf,
      hs,
      refl,
    )
    prepare_servers_for_update-ArePrepared (server ∷ servers) frame_counter buf v hf hs =
        let (d, made, size, read) =
          process_client_prepare_for_update_request-create_prepare_update_request
            (aead server.network_key) (prepare_for_update update_key update_len) frame_counter buf v
            hf hs in
        let (out, ran, counter, size', all) =
          prepare_servers_for_update-ArePrepared servers (u16 (frame_counter + 1)) d v (omega arith)
            size in
        (
          record out { datagrams = d ∷ out.datagrams },
          rw (made, open_channel server.address, ran) refl,
          counter,
          size',
          (read, all),
        )
