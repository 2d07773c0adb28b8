-- ===== src/Data/Frame/RoundTrip.antt =====
-- A datagram written by `to_datagram` and read by `from_datagram`.
use flip_flop_protocol.Common.{
  ℕ, ◌+◌, ◌-◌, ◌≤◌, ◌<◌, ◌≡◌, ◌%◌, arith, Bool, true, List, [], ◌++◌, max, length, length-append,
  length-drop, drop, All,
}
use flip_flop_protocol.Common.Words.{IsByte}
use flip_flop_protocol.Common.Result.{ok}
use flip_flop_protocol.Common.Outcome.{returns}
use flip_flop_protocol.Data.Crates.{Cipher, IsAead, Extend, IsExtend, Codec, IsCodec}
use flip_flop_protocol.Data.Header.{Header, IsHeader, to_packed}
use flip_flop_protocol.Data.Header.RoundTrip.{parse-to_packed, to_packed-IsPacked}
use flip_flop_protocol.Data.Frame.{
  DataFrame, IsFrame, frame_bytes, header_bytes, new_nonce, mic_size,
}
use flip_flop_protocol.Data.Frame.Decode.{from_datagram, decrypt_payload}
use flip_flop_protocol.Data.Frame.Encode.{to_datagram}

-- The header that the reader of a packed header sees.
abbrev pub as_parsed : Header → Header
as_parsed h = record h { version = 0; server_port = h.server_port % 8 }

module _ {E : Type 0} {frames : Codec E DataFrame} (codec : IsCodec frames IsFrame frame_bytes)
    {extend : Extend} (vectors : IsExtend extend) {cipher : Cipher}
    (aead : IsAead mic_size cipher) where
  -- The frame that `to_datagram` writes.
  abbrev pub sealed_frame : Header → List ℕ → DataFrame
  sealed_frame h text =
      let packed = to_packed h in
      record {
        header = packed;
        encrypted_payload = aead.sealed (new_nonce packed (length text)) (header_bytes packed) text;
      }

  pub sealed_frame-IsFrame :
      (h : Header) (text : List ℕ)
      → All IsByte text
      → length text + mic_size < 128
      → IsFrame (sealed_frame h text)
  sealed_frame-IsFrame h text bytes short = record {
    header_u8 = to_packed-IsPacked h;
    payload_u8 = aead.sealed-IsByte _ _ text bytes;
    payload_len = omega (
      arith,
      aead.length-sealed (new_nonce (to_packed h) (length text)) (header_bytes (to_packed h)) text,
    );
  }

  -- `to_datagram` does not panic on a payload that fits, and overwrites a prefix of the buffer.
  pub to_datagram_fits :
      (h : Header) (text buf : List ℕ)
      → All IsByte text
      → length text + mic_size < 128
      → length text + 9 ≤ length buf
      → to_datagram frames extend cipher h text buf
        ≡ returns (
            frame_bytes (sealed_frame h text)
            ++ drop (length (frame_bytes (sealed_frame h text))) buf)
  unfolding to_datagram
  to_datagram_fits h text buf bytes short fits =
      let nonce = new_nonce (to_packed h) (length text) in
      let aad = header_bytes (to_packed h) in
      let len = aead.length-sealed nonce aad text in
      rw
        (
          vectors.extend_fits (length buf) [] text (omega arith),
          aead.encrypt-sealed nonce aad (length buf) text (omega arith),
        )
        (ground (
          arith,
          codec.to_slice_fits (sealed_frame h text) buf (sealed_frame-IsFrame h text bytes short)
              (omega arith),
        ))

  -- The nonce that the reader derives from the sealed payload's length is the writer's.
  decrypt_payload-sealed_frame :
      (n : ℕ) (h : Header) (text : List ℕ)
      → length text + mic_size ≤ n
      → decrypt_payload frames extend cipher n (sealed_frame h text) ≡ ok text
  unfolding decrypt_payload
  decrypt_payload-sealed_frame n h text fits =
      let nonce = new_nonce (to_packed h) (length text) in
      let aad = header_bytes (to_packed h) in
      let len = aead.length-sealed nonce aad text in
      let same : max (length (aead.sealed nonce aad text)) mic_size - mic_size ≡ length text =
        omega arith in
      rw (
        same,
        vectors.extend_fits n [] (aead.sealed nonce aad text) (omega arith),
        aead.decrypt-sealed nonce aad n text fits,
      )

  -- Reading a sealed frame gives the header, with the port modulo 8, and the text.
  from_datagram-sealed_frame :
      (h : Header) (text rest : List ℕ) (filter : Header → Bool)
      → IsHeader h
      → All IsByte text
      → length text + mic_size < 128
      → filter (as_parsed h) ≡ true
      → from_datagram frames extend cipher (frame_bytes (sealed_frame h text) ++ rest) filter
        ≡ ok (as_parsed h, text)
  unfolding from_datagram
  from_datagram-sealed_frame h text rest filter v bytes short passes =
      let frame = sealed_frame h text in
      let len =
        aead.length-sealed (new_nonce (to_packed h) (length text)) (header_bytes (to_packed h))
          text in
      let more = length-append frame.encrypted_payload rest in
      rw
        (
          codec.from_bytes-append frame rest (sealed_frame-IsFrame h text bytes short),
          parse-to_packed h v,
          passes,
        )
        (rw
          (decrypt_payload-sealed_frame (length (frame_bytes frame ++ rest)) h text (omega arith)))

  -- For a payload of bytes that fits the buffer and the one-byte length, and a filter that lets
  -- the header through, `to_datagram` returns a datagram of the buffer's length, and
  -- `from_datagram` reads the header and the payload back from it: the version as 0, the port
  -- modulo 8, all else unchanged.
  pub from_datagram-to_datagram :
      (h : Header) (text buf : List ℕ) (filter : Header → Bool)
      → IsHeader h
      → All IsByte text
      → length text + mic_size < 128
      → length text + 9 ≤ length buf
      → filter (as_parsed h) ≡ true
      → (out : List ℕ) × (to_datagram frames extend cipher h text buf ≡ returns out)
        × (length out ≡ length buf)
        × (from_datagram frames extend cipher out filter ≡ ok (as_parsed h, text))
  from_datagram-to_datagram h text buf filter v bytes short fits passes =
      let head = frame_bytes (sealed_frame h text) in
      let rest = drop (length head) buf in
      let len =
        aead.length-sealed (new_nonce (to_packed h) (length text)) (header_bytes (to_packed h))
          text in
      (
        head ++ rest,
        to_datagram_fits h text buf bytes short fits,
        omega (arith, length-append head rest, length-drop (length head) buf),
        from_datagram-sealed_frame h text rest filter v bytes short passes,
      )
