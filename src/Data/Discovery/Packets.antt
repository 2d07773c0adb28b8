-- ===== src/Data/Discovery/Packets.antt =====
-- data/examples/discovery/main.rs: what the client and the servers read in each other's packets.
use flip_flop_protocol.Common.{
  ℕ, ◌^◌, ◌≤◌, ◌<◌, ◌≡◌, refl, arith, ap, ◌∙◌, sym, append-nil, Bool, true, false, ◌&&◌, Option,
  some, List, [], ◌==◌, All, length,
}
use flip_flop_protocol.Common.Words.{IsByte}
use flip_flop_protocol.Common.Text.{◌>>=◌}
use flip_flop_protocol.Common.Result.{to_option}
use flip_flop_protocol.Common.Outcome.{returns}
use flip_flop_protocol.Data.Crates.{Cipher, IsAead, Extend, IsExtend, Codec, IsCodec}
use flip_flop_protocol.Data.Header.{Header, IsHeader, DataSource, client, server}
use flip_flop_protocol.Data.Frame.{DataFrame, IsFrame, frame_bytes, mic_size}
use flip_flop_protocol.Data.Frame.Decode.{from_datagram}
use flip_flop_protocol.Data.Frame.Encode.{to_datagram}
use flip_flop_protocol.Data.Frame.RoundTrip.{from_datagram-to_datagram}
use flip_flop_protocol.Data.Discovery.{Identify, Identified, min_payload_size, min_packet_size}

abbrev pub is_source : DataSource → DataSource → Bool
is_source client client = true
is_source client server = false
is_source server client = false
is_source server server = true

-- The filter of either direction.
abbrev pub is_discovery : DataSource → Header → Bool
is_discovery source h =
    h.server_address == 0x00 && h.server_port == 0x00 && is_source h.source source

abbrev pub discovery_header : DataSource → ℕ → Header
discovery_header source frame_counter = record {
  version = 0;
  source = source;
  server_address = 0;
  server_port = 0;
  frame_counter = frame_counter;
}

module _ {E : Type 0} (frames : Codec E DataFrame) (extend : Extend) (cipher : Cipher) where
  unfoldable pub process_client_request : Codec E Identify → List ℕ → Option Identify
  process_client_request identifies datagram_buf =
      to_option (from_datagram frames extend cipher datagram_buf (is_discovery client))
      >>= λ (_, b). to_option (identifies.from_bytes b)

  unfoldable pub process_server_reply : Codec E Identified → List ℕ → Option Identified
  process_server_reply identifieds datagram_buf =
      to_option (from_datagram frames extend cipher datagram_buf (is_discovery server))
      >>= λ (_, b). to_option (identifieds.from_bytes b)

discovery_header-IsHeader :
    (source : DataSource) (frame_counter : ℕ)
    → frame_counter < 2 ^ 16
    → IsHeader (discovery_header source frame_counter)
discovery_header-IsHeader source frame_counter h = record {
  version_u8 = omega arith;
  address_u8 = omega arith;
  port_u8 = omega arith;
  counter_u16 = h;
}

is_source_refl : (source : DataSource) → is_source source source ≡ true
is_source_refl client = refl
is_source_refl server = refl

-- An encoding whose values fit a packet.
pub record IsPayload {A : Type 0} (IsValue : A → Type 0) (bytes : A → List ℕ) : Type 0 where
  pub payload_fit : (a : A) → IsValue a → length (bytes a) ≤ min_payload_size
  pub payload_u8 : (a : A) → IsValue a → All IsByte (bytes a)

module _ {E A : Type 0} {frames : Codec E DataFrame} (codec : IsCodec frames IsFrame frame_bytes)
    {extend : Extend} (vectors : IsExtend extend) {cipher : Cipher} (aead : IsAead mic_size cipher)
    {values : Codec E A} {IsValue : A → Type 0} {bytes : A → List ℕ}
    (value_codec : IsCodec values IsValue bytes) (fits : IsPayload IsValue bytes) where
  -- A value that is sent in either direction is read back.
  pub from_datagram-discovery :
      (source : DataSource) (a : A) (frame_counter : ℕ) (buf : List ℕ)
      → IsValue a
      → frame_counter < 2 ^ 16
      → length buf ≡ min_packet_size
      → (out : List ℕ) × (to_datagram frames extend cipher
            (discovery_header source frame_counter)
            (bytes a)
            buf
          ≡ returns out)
        × (length out ≡ min_packet_size)
        × ((to_option (from_datagram frames extend cipher out (is_discovery source)) >>= λ (_, b).
              to_option (values.from_bytes b))
            ≡ some a)
  from_datagram-discovery source a frame_counter buf v hf hs =
      let fit = fits.payload_fit a v in
      let back =
        ap values.from_bytes (sym (append-nil (bytes a))) ∙ value_codec.from_bytes-append a [] v in
      let (out, made, size, read) =
        from_datagram-to_datagram codec vectors aead (discovery_header source frame_counter)
          (bytes a) buf (is_discovery source) (discovery_header-IsHeader source frame_counter hf)
          (fits.payload_u8 a v) (omega arith) (omega arith) (is_source_refl source) in
      (out, made, omega arith, rw (read, back) refl)
