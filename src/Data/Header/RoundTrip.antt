-- ===== src/Data/Header/RoundTrip.antt =====
-- Packing and parsing a header against each other, and what `Header::parse` refuses.
use flip_flop_protocol.Common.{
  ℕ, zero, suc, ◌+◌, ◌*◌, ◌/◌, ◌%◌, ◌<◌, ◌≡◌, refl, sym, ◌↔◌, arith, Option, none, some, ◌≢◌, ◌∙◌,
}
use flip_flop_protocol.Data.Header.{
  Header, DataSource, client, server, Packed, IsPacked, IsHeader, source_bit, header_word,
  to_packed, parse, source_of, accept,
}
use flip_flop_protocol.Data.Header.Fields.{
  source_bit-lt, header_word_as_sum, to_packed_bytes, parse_as_fields,
}

source_of-source_bit : (s : DataSource) → source_of (source_bit s) ≡ some s
unfolding source_of source_bit
source_of-source_bit client = refl
source_of-source_bit server = refl

source_bit-source_of : (n : ℕ) {s : DataSource} → source_of n ≡ some s → source_bit s ≡ n
unfolding source_of source_bit
source_bit-source_of zero e = ground arith
source_bit-source_of (suc zero) e = ground arith
source_bit-source_of (suc (suc n)) e = cc

source_of_bit : (n : ℕ) → n < 2 → (s : DataSource) × (source_of n ≡ some s)
unfolding source_of
source_of_bit zero h = (client, refl)
source_of_bit (suc zero) h = (server, refl)
source_of_bit (suc (suc n)) h = absurd (omega arith)

-- What the last match of `parse` returns, both ways.
accept-some :
    (s : DataSource) (a p f : ℕ)
    → accept 0 (some s) a p f
      ≡ some (record {
        version = 0;
        source = s;
        server_address = a % 256;
        server_port = p % 256;
        frame_counter = f % 65536;
      })
unfolding accept
accept-some s a p f = refl

accept-eq-some :
    (v : ℕ) (o : Option DataSource) (a p f : ℕ) {h : Header}
    → accept v o a p f ≡ some h
    → (v ≡ 0)
      × (o ≡ some h.source)
      × (h.version ≡ 0)
      × (h.server_address ≡ a % 256)
      × (h.server_port ≡ p % 256)
      × (h.frame_counter ≡ f % 65536)
unfolding accept
accept-eq-some zero (some s) a p f e = ground arith
accept-eq-some zero none a p f e = absurd (ground arith)
accept-eq-some (suc v) o a p f e = absurd (ground arith)

accept-none : (v : ℕ) (o : Option DataSource) (a p f : ℕ) → v ≢ 0 → accept v o a p f ≡ none
unfolding accept
accept-none zero o a p f h = absurd (h refl)
accept-none (suc v) o a p f h = refl

-- Every header is packed into four bytes.
pub to_packed-IsPacked : (h : Header) → IsPacked (to_packed h)
to_packed-IsPacked h = rw to_packed_bytes (omega arith)

-- For a header whose fields fit their Rust types, parsing its packed form gives it back, but for
-- the version, which is read as 0, and the port, which is read modulo 8.
pub parse-to_packed :
    (h : Header)
    → IsHeader h
    → parse (to_packed h) ≡ some (record h { version = 0; server_port = h.server_port % 8 })
parse-to_packed h v =
    let w = header_word h in
    let fields = header_word_as_sum h in
    let bit = source_bit-lt h.source in
    let word = parse_as_fields (to_packed h) (to_packed-IsPacked h) in
    ground (
      arith,
      word,
      to_packed_bytes h,
      source_of-source_bit h.source,
      accept-some h.source (h.server_address % 256) (h.server_port % 8) (h.frame_counter % 65536),
    )

-- The bytes that a parsed header is packed into are the bytes it was parsed from, with the two
-- version bits and the two reserved bits cleared.
pub to_packed-parse :
    (p : Packed) {h : Header}
    → IsPacked p
    → parse p ≡ some h
    → to_packed h ≡ (p.0, p.1, p.2 % 64, p.3 / 4 * 4)
to_packed-parse p {h} v e =
    let inv = accept-eq-some _ _ _ _ _ (sym (parse_as_fields p v) ∙ e) in
    let bit = source_bit-source_of (p.3 / 4 % 2) inv.1 in
    ground (arith, to_packed_bytes h, header_word_as_sum h)

-- Parsing fails exactly when bit 1 of the last byte is set.
pub parse-eq-none_iff : (p : Packed) → IsPacked p → (parse p ≡ none) ↔ (p.3 / 2 % 2 ≡ 1)
parse-eq-none_iff p v =
    let (s, e) = source_of_bit (p.3 / 4 % 2) (omega arith) in
    (
      λ fails. ground (
        arith,
        parse_as_fields p v,
        accept-some s (p.3 / 8 % 32 + p.2 % 8 * 32) (p.2 / 8 % 8) (p.1 + p.0 * 256),
      ),
      λ set. parse_as_fields p v ∙ accept-none _ _ _ _ _ (omega arith),
    )

-- A header that was parsed has version 0, a port below 8, and fields that fit their Rust types.
pub parse-IsHeader :
    (p : Packed) {h : Header}
    → IsPacked p
    → parse p ≡ some h
    → IsHeader h × (h.version ≡ 0) × (h.server_port < 8)
parse-IsHeader p {h} v e =
    let inv = accept-eq-some _ _ _ _ _ (sym (parse_as_fields p v) ∙ e) in ground arith

-- Bit 0 of the version and the two reserved bits do not change what `parse` returns: a frame of
-- version 1 is read as one of version 0.
pub parse_ignores : (p : Packed) → IsPacked p → parse p ≡ parse (p.0, p.1, p.2 % 64, p.3 / 2 * 2)
parse_ignores p v =
    ground
      (arith, parse_as_fields p v, parse_as_fields (p.0, p.1, p.2 % 64, p.3 / 2 * 2) (omega arith))
