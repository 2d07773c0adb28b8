-- ===== src/Data/Frame/Nonce.antt =====
-- data/src/lib.rs: when two calls of `new_nonce` agree.
use flip_flop_protocol.Common.{ℕ, ◌%◌, ◌^◌, ◌≡◌, refl, ap, sym, ◌∙◌, arith, length, some}
use flip_flop_protocol.Data.Header.{Header, IsHeader, Packed, to_packed, parse}
use flip_flop_protocol.Data.Header.RoundTrip.{parse-to_packed}
use flip_flop_protocol.Data.Frame.{new_nonce, nonce_size}

length-new_nonce : (p : Packed) (n : ℕ) → length (new_nonce p n) ≡ nonce_size
unfolding new_nonce
length-new_nonce p n = refl

new_nonce_inj :
    (p q : Packed) (m n : ℕ) → new_nonce p m ≡ new_nonce q n → (p ≡ q) × (m % 2 ^ 8 ≡ n % 2 ^ 8)
unfolding new_nonce
new_nonce_inj p q m n e = ground arith

parsed_fields :
    (h k : Header)
    → some (record h { version = 0; server_port = h.server_port % 8 })
      ≡ some (record k { version = 0; server_port = k.server_port % 8 })
    → (h.source ≡ k.source)
      × (h.server_address ≡ k.server_address)
      × (h.server_port % 8 ≡ k.server_port % 8)
      × (h.frame_counter ≡ k.frame_counter)
parsed_fields h k e = ground arith

-- Two frames share a nonce only if their headers agree in the source, the address, the port modulo
-- 8 and the frame counter, and their payload lengths agree modulo 256.
pub new_nonce-eq :
    (h k : Header) (m n : ℕ)
    → IsHeader h
    → IsHeader k
    → new_nonce (to_packed h) m ≡ new_nonce (to_packed k) n
    → (h.source ≡ k.source)
      × (h.server_address ≡ k.server_address)
      × (h.server_port % 8 ≡ k.server_port % 8)
      × (h.frame_counter ≡ k.frame_counter)
      × (m % 2 ^ 8 ≡ n % 2 ^ 8)
new_nonce-eq h k m n vh vk e =
    let (same, lens) = new_nonce_inj _ _ m n e in
    let (s, a, p, f) =
      parsed_fields h k (sym (parse-to_packed h vh) ∙ ap parse same ∙ parse-to_packed k vk) in
    (s, a, p, f, lens)
