-- ===== src/Data/Header/Fields.antt =====
-- The packed header as arithmetic on its fields.
use flip_flop_protocol.Common.{◌+◌, ◌*◌, ◌/◌, ◌%◌, ◌<◌, ◌≡◌, arith, bit_and, bit_or}
use flip_flop_protocol.Common.Words.{
  ◌<<◌, bit_or_above, bit_or_below, bit_and_mask, bit_and_shifted,
}
use flip_flop_protocol.Data.Header.{
  Header, DataSource, client, server, Packed, IsPacked, source_bit, header_word, to_packed,
  packed_word, parse, source_of, accept,
}

pub source_bit-lt : (s : DataSource) → source_bit s < 2
unfolding source_bit
source_bit-lt client = omega arith
source_bit-lt server = omega arith

-- The word before it is cut into bytes.
pub header_word_as_sum :
    (h : Header)
    → header_word h
      ≡ source_bit h.source * 4
        + h.server_address % 256 * 8
        + h.server_port % 8 * 2048
        + h.frame_counter % 65536 * 65536
unfolding header_word
header_word_as_sum h =
    let s = source_bit h.source << 2 in
    let a = bit_and h.server_address 0xFF << 3 in
    let p = bit_and h.server_port 0x07 << 11 in
    let f = bit_and h.frame_counter 0xFFFF << 16 in
    let bit = source_bit-lt h.source in
    let address = bit_and_mask 8 h.server_address in
    let port = bit_and_mask 3 h.server_port in
    let counter = bit_and_mask 16 h.frame_counter in
    let or_a = bit_or_above 3 (h.server_address % 256) s a (omega arith) (omega arith) in
    let or_p = bit_or_above 11 (h.server_port % 8) (bit_or s a) p (omega arith) (omega arith) in
    let or_f =
      bit_or_above 16 (h.frame_counter % 65536) (bit_or (bit_or s a) p) f (omega arith)
        (omega arith) in
    omega arith

pub packed_word_as_sum :
    (p : Packed) → IsPacked p → packed_word p ≡ p.0 * 16777216 + p.1 * 65536 + p.2 * 256 + p.3
unfolding packed_word
packed_word_as_sum (a, b, c, d) h =
    let or_b = bit_or_below 24 a (b << 16) (a << 24) (omega arith) (omega arith) in
    let or_c =
      bit_or_below 16 (a * 256 + b) (c << 8) (bit_or (a << 24) (b << 16)) (omega arith)
        (omega arith) in
    let or_d =
      bit_or_below 8 (a * 65536 + b * 256 + c) d (bit_or (bit_or (a << 24) (b << 16)) (c << 8))
        (omega arith) (omega arith) in
    omega arith

-- The bytes of the packed header, most significant first.
pub to_packed_bytes :
    (h : Header)
    → let w = header_word h in
      to_packed h ≡ (w / 16777216 % 256, w / 65536 % 256, w / 256 % 256, w % 256)
unfolding to_packed
to_packed_bytes h =
    let w = header_word h in
    ground (
      arith,
      bit_and_shifted 24 w 0xff,
      bit_and_shifted 16 w 0xff,
      bit_and_shifted 8 w 0xff,
      bit_and_mask 8 (w / 16777216),
      bit_and_mask 8 (w / 65536),
      bit_and_mask 8 (w / 256),
      bit_and_mask 8 w,
    )

-- The fields that `parse` cuts out of a word, handed to its last match.
pub parse_as_fields :
    (p : Packed)
    → IsPacked p
    → parse p
      ≡ accept
          (p.3 / 2 % 2 * 2)
          (source_of (p.3 / 4 % 2))
          (p.3 / 8 % 32 + p.2 % 8 * 32)
          (p.2 / 8 % 8)
          (p.1 + p.0 * 256)
unfolding parse
parse_as_fields p h =
    let w = packed_word p in
    ground (
      arith,
      packed_word_as_sum p h,
      bit_and_shifted 1 w 1,
      bit_and_mask 1 (w / 2),
      bit_and_mask 1 (w / 4),
      bit_and_mask 8 (w / 8),
      bit_and_mask 3 (w / 2048),
      bit_and_mask 16 (w / 65536),
    )
