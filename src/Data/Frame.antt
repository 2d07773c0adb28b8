-- ===== src/Data/Frame.antt =====
-- data/src/lib.rs: data frames, their nonce, and below this module `from_datagram` (Decode) and
-- `to_datagram` (Encode). The cipher, the vectors and the codec of the data frame are parameters
-- (Data/Crates).
pub mod Nonce
pub mod Decode
pub mod Encode
pub mod RoundTrip
pub mod Errors
pub mod Toy
mod UnitTests
mod Examples
use flip_flop_protocol.Common.{ℕ, ◌+◌, ◌<◌, List, [], ◌∷◌, ◌++◌, length, All}
use flip_flop_protocol.Common.Words.{u8, IsByte}
use flip_flop_protocol.Data.Header.{Packed, IsPacked}

abbrev pub header_size : ℕ
header_size = 6

abbrev pub mic_size : ℕ
mic_size = 4

abbrev pub nonce_size : ℕ
nonce_size = 7

pub record DataFrame : Type 0 where
  pub header : Packed
  pub encrypted_payload : List ℕ

-- `[header.0, header.1, header.2, header.3]`
abbrev pub header_bytes : Packed → List ℕ
header_bytes p = p.0 ∷ p.1 ∷ p.2 ∷ p.3 ∷ []

unfoldable pub new_nonce : Packed → ℕ → List ℕ
new_nonce header payload_len =
    0x01 ∷ header.0 ∷ header.1 ∷ header.2 ∷ header.3 ∷ u8 payload_len ∷ 0x00 ∷ []

-- `E` is `postcard::Error`.
pub data FromDatagramError (E : Type 0) : Type 0 where
  cannot_parse_data_frame : E → FromDatagramError E
  cannot_parse_header filter_does_not_match cannot_decrypt : FromDatagramError E

-- The frames that the protocol allows: a payload of at most 127 bytes, whose length is then one
-- byte on the wire, behind the four bytes of the header.
pub record IsFrame (f : DataFrame) : Type 0 where
  pub header_u8 : IsPacked f.header
  pub payload_u8 : All IsByte f.encrypted_payload
  pub payload_len : length f.encrypted_payload < 128

abbrev pub frame_bytes : DataFrame → List ℕ
frame_bytes f = header_bytes f.header ++ length f.encrypted_payload ∷ f.encrypted_payload
