-- ===== src/Data/Frame/Examples.antt =====
-- The theorems on data frames at concrete inputs, with the stand-ins of Data/Frame/Toy.
use flip_flop_protocol.Common.{
  ℕ, ◌+◌, ◌<◌, ◌%◌, ◌^◌, ◌≡◌, refl, ◌↔◌, arith, Bool, ◌&&◌, ◌==◌, List, [], ◌∷◌, length, replicate,
}
use flip_flop_protocol.Common.Result.{ok, err}
use flip_flop_protocol.Common.Outcome.{returns, panics}
use flip_flop_protocol.Data.Header.{Header, server, to_packed, parse}
use flip_flop_protocol.Data.Frame.{filter_does_not_match, new_nonce}
use flip_flop_protocol.Data.Frame.Nonce.{new_nonce-eq}
use flip_flop_protocol.Data.Frame.Decode.{from_datagram}
use flip_flop_protocol.Data.Frame.Encode.{to_datagram}
use flip_flop_protocol.Data.Frame.RoundTrip.{as_parsed, from_datagram-to_datagram}
use flip_flop_protocol.Data.Frame.Errors.{
  Accepts, IsFiltered, from_datagram-ok_iff, from_datagram-filter_iff, to_datagram-panics_iff,
}
use flip_flop_protocol.Data.Frame.Toy.{
  toy_frames, toy_frames-IsCodec, toy_frames-IsBorrowed, toy_extend, toy_extend-IsExtend,
  toy_cipher, toy_cipher-IsAead,
}

abbrev sample : Header
sample = record {
  version = 0;
  source = server;
  server_address = 255;
  server_port = 7;
  frame_counter = 1;
}

abbrev payload : List ℕ
payload = b's' ∷ b'o' ∷ b'm' ∷ b'e' ∷ []

abbrev zeros : List ℕ
zeros = replicate 16 0

abbrev for_us : Header → Bool
for_us h = h.server_address == 255 && h.server_port == 7

abbrev for_others : Header → Bool
for_others h = h.server_address == 1

abbrev datagram : List ℕ
datagram = 0 ∷ 1 ∷ 63 ∷ 252 ∷ 8 ∷ b's' ∷ b'o' ∷ b'm' ∷ b'e' ∷ 0 ∷ 0 ∷ 0 ∷ 0 ∷ 0 ∷ 0 ∷ 0 ∷ []

writes : to_datagram toy_frames toy_extend toy_cipher sample payload zeros ≡ returns datagram
unfolding to_datagram to_packed new_nonce
writes = refl

reads : from_datagram toy_frames toy_extend toy_cipher datagram for_us ≡ ok (sample, payload)
unfolding from_datagram parse new_nonce
reads = refl

from_datagram-to_datagram_example :
    (out : List ℕ) × (to_datagram toy_frames toy_extend toy_cipher sample payload zeros
      ≡ returns out)
    × (length out ≡ 16)
    × (from_datagram toy_frames toy_extend toy_cipher out for_us ≡ ok (as_parsed sample, payload))
from_datagram-to_datagram_example =
    from_datagram-to_datagram toy_frames-IsCodec toy_extend-IsExtend toy_cipher-IsAead sample
      payload zeros for_us (omega arith) (omega arith) (omega arith) (omega arith) refl

new_nonce-eq_example :
    (server ≡ server)
    × (255 ≡ sample.server_address)
    × (7 % 8 ≡ sample.server_port % 8)
    × (1 ≡ sample.frame_counter)
    × (4 % 2 ^ 8 ≡ (length payload + 256) % 2 ^ 8)
new_nonce-eq_example = new_nonce-eq sample sample 4 260 (omega arith) (omega arith) same
  where
    same : new_nonce (to_packed sample) 4 ≡ new_nonce (to_packed sample) 260
    same = unfold new_nonce in refl

from_datagram-ok_iff_example :
    (from_datagram toy_frames toy_extend toy_cipher datagram for_us ≡ ok (sample, payload))
    ↔ Accepts toy_frames toy_cipher datagram for_us sample payload
from_datagram-ok_iff_example =
    from_datagram-ok_iff toy_frames toy_frames-IsBorrowed toy_extend-IsExtend toy_cipher datagram
      for_us sample payload

from_datagram-filter_iff_example :
    (from_datagram toy_frames toy_extend toy_cipher datagram for_others ≡ err filter_does_not_match)
    ↔ IsFiltered toy_frames datagram for_others
from_datagram-filter_iff_example =
    from_datagram-filter_iff toy_frames toy_frames-IsBorrowed toy_extend-IsExtend toy_cipher
      datagram for_others

to_datagram-panics_iff_example :
    (to_datagram toy_frames toy_extend toy_cipher sample payload (0 ∷ []) ≡ panics) ↔ (1 < 4 + 9)
to_datagram-panics_iff_example =
    to_datagram-panics_iff toy_frames-IsCodec toy_extend-IsExtend toy_cipher-IsAead sample payload
      (0 ∷ []) (omega arith) (omega arith)
