-- ===== src/Data/Frame/Decode.antt =====
-- data/src/lib.rs: `from_datagram`.
use flip_flop_protocol.Common.{
  ℕ, ◌-◌, Bool, Option, none, some, List, [], max, length, if◌then◌else◌,
}
use flip_flop_protocol.Common.Result.{Result, ok, err, map_err, ok_or, ◌>>=◌}
use flip_flop_protocol.Data.Crates.{Cipher, Extend, Codec}
use flip_flop_protocol.Data.Header.{Header, parse}
use flip_flop_protocol.Data.Frame.{
  DataFrame, FromDatagramError, cannot_parse_data_frame, cannot_parse_header, filter_does_not_match,
  cannot_decrypt, header_bytes, new_nonce, mic_size,
}

-- `let _ = v.extend_from_slice(s)`: an error leaves the vector as it was.
unfoldable pub extend_or_keep : Option (List ℕ) → List ℕ → List ℕ
extend_or_keep none v = v
extend_or_keep (some v') v = v'

-- The guard `if !filter(&header)`.
unfoldable pub check_filter : {E : Type 0} → Bool → Result (FromDatagramError E) (Unit {0})
check_filter matches = if matches then ok tt else err filter_does_not_match

module _ {E : Type 0} (frames : Codec E DataFrame) (extend : Extend) (cipher : Cipher) where
  -- What follows the filter: the payload is copied into a buffer of capacity `n` and decrypted there.
  unfoldable pub decrypt_payload : ℕ → DataFrame → Result (FromDatagramError E) (List ℕ)
  unfolding extend_or_keep
  decrypt_payload n frame =
      let nonce =
        new_nonce frame.header (max (length frame.encrypted_payload) mic_size - mic_size) in
      let crypt_payload_buf = extend_or_keep (extend n [] frame.encrypted_payload) [] in
      ok_or (cipher.decrypt_in_place nonce (header_bytes frame.header) n crypt_payload_buf)
        cannot_decrypt

  -- `N` is the length of the array.
  unfoldable pub from_datagram :
      List ℕ → (Header → Bool) → Result (FromDatagramError E) (Header × List ℕ)
  unfolding check_filter decrypt_payload
  from_datagram datagram_buf filter = do
    data_frame ← map_err (frames.from_bytes datagram_buf) cannot_parse_data_frame
    header ← ok_or (parse data_frame.header) cannot_parse_header
    _ ← check_filter (filter header)
    crypt_payload_buf ← decrypt_payload (length datagram_buf) data_frame
    ok (header, crypt_payload_buf)
