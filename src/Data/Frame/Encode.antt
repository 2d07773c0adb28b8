-- ===== src/Data/Frame/Encode.antt =====
-- data/src/lib.rs: `to_datagram`. The result is the new content of `datagram_buf`.
use flip_flop_protocol.Common.{ℕ, List, [], length}
use flip_flop_protocol.Common.Outcome.{Outcome, unwrap, ◌>>=◌}
use flip_flop_protocol.Data.Crates.{Cipher, Extend, Codec}
use flip_flop_protocol.Data.Header.{Header, to_packed}
use flip_flop_protocol.Data.Frame.{DataFrame, header_bytes, new_nonce}

module _ {E : Type 0} (frames : Codec E DataFrame) (extend : Extend) (cipher : Cipher) where
  -- `N` is the length of the array.
  unfoldable pub to_datagram : Header → List ℕ → List ℕ → Outcome (List ℕ)
  to_datagram header payload_buf datagram_buf = do
    let packed_header = to_packed header
    let nonce = new_nonce packed_header (length payload_buf)
    crypt_payload_buf ← unwrap (extend (length datagram_buf) [] payload_buf)
    crypt_payload_buf' ← unwrap (
        cipher.encrypt_in_place nonce (header_bytes packed_header) (length datagram_buf)
          crypt_payload_buf)
    let data_frame : DataFrame = record {
      header = packed_header;
      encrypted_payload = crypt_payload_buf';
    }
    unwrap (frames.to_slice data_frame datagram_buf)
