-- ===== src/Data/Header.antt =====
-- data/src/lib.rs: the header of a data frame, `Header::to_packed` and `Header::parse`.
pub mod Fields
pub mod RoundTrip
mod Examples
use flip_flop_protocol.Common.{ℕ, zero, suc, ◌^◌, ◌<◌, Option, none, some, bit_and, bit_or}
use flip_flop_protocol.Common.Words.{u8, u16, ◌<<◌, ◌>>>◌, IsByte}

pub data DataSource : Type 0 where
  client server : DataSource

-- `self.source == DataSource::Server` as a `u32`
pub source_bit : DataSource → ℕ
source_bit client = 0
source_bit server = 1

pub record Header : Type 0 where
  pub version : ℕ
  pub source : DataSource
  pub server_address : ℕ
  pub server_port : ℕ
  pub frame_counter : ℕ

-- `(u8, u8, u8, u8)`
abbrev pub Packed : Type 0
Packed = ℕ × ℕ × ℕ × ℕ

-- The widths of the fields' Rust types.
pub record IsHeader (h : Header) : Type 0 where
  pub version_u8 : h.version < 2 ^ 8
  pub address_u8 : h.server_address < 2 ^ 8
  pub port_u8 : h.server_port < 2 ^ 8
  pub counter_u16 : h.frame_counter < 2 ^ 16

abbrev pub IsPacked : Packed → Type 0
IsPacked p = IsByte p.0 × IsByte p.1 × IsByte p.2 × IsByte p.3

pub header_word : Header → ℕ
unfolding source_bit
header_word h =
    bit_or
      (bit_or (bit_or (source_bit h.source << 2) (bit_and h.server_address 0xFF << 3))
        (bit_and h.server_port 0x07 << 11))
      (bit_and h.frame_counter 0xFFFF << 16)

unfoldable pub to_packed : Header → Packed
unfolding header_word
to_packed h =
    let header = header_word h in
    (
      u8 (bit_and header 0xff000000 >>> 24),
      u8 (bit_and header 0x00ff0000 >>> 16),
      u8 (bit_and header 0x0000ff00 >>> 8),
      u8 (bit_and header 0x000000ff),
    )

pub packed_word : Packed → ℕ
packed_word p = bit_or (bit_or (bit_or (p.0 << 24) (p.1 << 16)) (p.2 << 8)) p.3

-- `match (header >> 2) & 0x01`
pub source_of : ℕ → Option DataSource
source_of zero = some client
source_of (suc zero) = some server
source_of (suc (suc _)) = none

-- The last match of `Header::parse`: `none` is `Err(HeaderParseError {})`.
pub accept : ℕ → Option DataSource → ℕ → ℕ → ℕ → Option Header
accept zero (some source) server_address server_port frame_counter = some (record {
  version = 0;
  source = source;
  server_address = u8 server_address;
  server_port = u8 server_port;
  frame_counter = u16 frame_counter;
})
accept _ _ _ _ _ = none

unfoldable pub parse : Packed → Option Header
unfolding packed_word source_of accept
parse p =
    let header = packed_word p in
    let version = bit_and header 0x02 in
    let source = source_of (bit_and (header >>> 2) 0x01) in
    let server_address = bit_and (header >>> 3) 0xFF in
    let server_port = bit_and (header >>> 11) 0x07 in
    let frame_counter = bit_and (header >>> 16) 0xFFFF in
    accept version source server_address server_port frame_counter
