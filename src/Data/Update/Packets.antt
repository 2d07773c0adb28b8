-- ===== src/Data/Update/Packets.antt =====
-- data/examples/update/main.rs: the packet that the client makes of an update, and what a server
-- reads in it.
use flip_flop_protocol.Common.{
  ℕ, ◌^◌, ◌≤◌, ◌<◌, ◌≡◌, refl, arith, ap, ◌∙◌, sym, append-nil, some, List, [], length, All,
}
use flip_flop_protocol.Common.Words.{IsByte}
use flip_flop_protocol.Common.Result.{ok}
use flip_flop_protocol.Common.Outcome.{returns}
use flip_flop_protocol.Data.Crates.{Cipher, IsAead, Extend, IsExtend, Codec, IsCodec}
use flip_flop_protocol.Data.Header.{IsHeader}
use flip_flop_protocol.Data.Frame.{DataFrame, IsFrame, frame_bytes, mic_size}
use flip_flop_protocol.Data.Frame.RoundTrip.{from_datagram-to_datagram}
use flip_flop_protocol.Data.Discovery.{min_payload_size, min_packet_size}
use flip_flop_protocol.Data.Update.{Update, PrepareForUpdate}
use flip_flop_protocol.Data.Update.Client.{create_update_request, request_header}
use flip_flop_protocol.Data.Update.Chunks.{IsUpdate}
use flip_flop_protocol.Data.Update.Server.{process_client_update_request, is_update_request}

-- postcard's encoding of an update takes at most the bytes that the source allows for.
pub record IsUpdateBytes (update_bytes : Update → List ℕ) : Type 0 where
  pub update_bytes_fit : (u : Update) → IsUpdate u → length (update_bytes u) ≤ min_payload_size
  pub update_bytes_u8 : (u : Update) → IsUpdate u → All IsByte (update_bytes u)

pub request_header-IsHeader :
    (frame_counter : ℕ) → frame_counter < 2 ^ 16 → IsHeader (request_header frame_counter)
request_header-IsHeader frame_counter h = record {
  version_u8 = omega arith;
  address_u8 = omega arith;
  port_u8 = omega arith;
  counter_u16 = h;
}

module _ {E : Type 0} {frames : Codec E DataFrame} (codec : IsCodec frames IsFrame frame_bytes)
    {extend : Extend} (vectors : IsExtend extend) {updates : Codec E Update}
    {update_bytes : Update → List ℕ} (update_codec : IsCodec updates IsUpdate update_bytes)
    (bytes_laws : IsUpdateBytes update_bytes) (prepares : Codec E PrepareForUpdate)
    {cipher : Cipher} (aead : IsAead mic_size cipher) where
  from_bytes-update_bytes : (u : Update) → IsUpdate u → updates.from_bytes (update_bytes u) ≡ ok u
  from_bytes-update_bytes u v =
      ap updates.from_bytes (sym (append-nil (update_bytes u)))
      ∙ update_codec.from_bytes-append u [] v

  pub process_client_update_request-create_update_request :
      (u : Update) (frame_counter : ℕ) (buf : List ℕ)
      → IsUpdate u
      → frame_counter < 2 ^ 16
      → length buf ≡ min_packet_size
      → (out : List ℕ) × (create_update_request frames extend updates cipher u frame_counter buf
          ≡ returns out)
        × (length out ≡ min_packet_size)
        × (process_client_update_request frames extend updates prepares cipher out ≡ some u)
  unfolding create_update_request process_client_update_request
  process_client_update_request-create_update_request u frame_counter buf v hf hs =
      let header = request_header frame_counter in
      let text = update_bytes u in
      let fit = bytes_laws.update_bytes_fit u v in
      let (out, made, size, read) =
        from_datagram-to_datagram codec vectors aead header text buf is_update_request
          (request_header-IsHeader frame_counter hf) (bytes_laws.update_bytes_u8 u v) (omega arith)
          (omega arith) refl in
      (
        out,
        rw (update_codec.to_vec_fits u min_payload_size v fit) made,
        omega arith,
        rw (read, from_bytes-update_bytes u v) refl,
      )
