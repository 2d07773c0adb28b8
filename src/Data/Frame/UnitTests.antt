-- ===== src/Data/Frame/UnitTests.antt =====
-- data/src/lib.rs: the unit tests, as computations that return or panic. The cipher under the
-- tests' key is a parameter.
use flip_flop_protocol.Common.{
  ℕ, ◌≡◌, refl, Bool, true, false, ◌&&◌, none, some, List, [], ◌∷◌, ◌++◌, ◌==◌, All, if◌then◌else◌,
  replicate,
}
use flip_flop_protocol.Common.Asserts.{eq_list, assert_eq}
use flip_flop_protocol.Common.Outcome.{◌>>◌, Outcome, returns, unwrap, ◌>>=◌}
use flip_flop_protocol.Common.Result.{to_option}
use flip_flop_protocol.Common.Text.{codes}
use flip_flop_protocol.Data.Crates.{Cipher, Extend, Codec}
use flip_flop_protocol.Data.Header.{Header, DataSource, client, server, to_packed, parse}
use flip_flop_protocol.Data.Frame.{DataFrame, new_nonce}
use flip_flop_protocol.Data.Frame.Encode.{to_datagram}
use flip_flop_protocol.Data.Frame.Decode.{from_datagram}
use flip_flop_protocol.Data.Frame.Toy.{toy_frames, toy_extend}

-- The derived `PartialEq`.
abbrev eq_source : DataSource → DataSource → Bool
eq_source client client = true
eq_source client server = false
eq_source server client = false
eq_source server server = true

eq_header : Header → Header → Bool
eq_header g h =
    g.version == h.version
    && eq_source g.source h.source
    && g.server_address == h.server_address
    && g.server_port == h.server_port
    && g.frame_counter == h.frame_counter

abbrev eq_bytes : List ℕ → List ℕ → Bool
eq_bytes = eq_list (λ m n. m == n)

abbrev test_header : Header
test_header = record {
  version = 0;
  source = server;
  server_address = 255;
  server_port = 7;
  frame_counter = 1;
}

abbrev test_payload : List ℕ
test_payload = codes "some data"

-- What the cipher makes of the payload, with its tag.
abbrev encrypted : List ℕ
encrypted = 145 ∷ 171 ∷ 66 ∷ 62 ∷ 129 ∷ 223 ∷ 68 ∷ 168 ∷ 6 ∷ 69 ∷ 126 ∷ 97 ∷ 64 ∷ []

abbrev test_datagram : List ℕ
test_datagram = (0 ∷ 1 ∷ 63 ∷ 252 ∷ 13 ∷ encrypted) ++ replicate 14 0

module _ {E : Type 0} (frames : Codec E DataFrame) (extend : Extend) (cipher : Cipher) where
  test_datagram_serialisation : Outcome (Unit {0})
  unfolding to_datagram
  test_datagram_serialisation = do
    datagram_buf ← to_datagram frames extend cipher test_header test_payload (replicate 32 0)
    assert_eq eq_bytes datagram_buf test_datagram

  test_datagram_deserialisation : Outcome (Unit {0})
  unfolding from_datagram eq_header
  test_datagram_deserialisation = do
    (header, payload_buf) ← unwrap (
        to_option (
          from_datagram frames extend cipher test_datagram
            λ h. eq_source h.source server && h.server_address == 255 && h.server_port == 7))
    assert_eq eq_header header test_header
    assert_eq eq_bytes payload_buf test_payload

-- A cipher that knows the one message, under the nonce and the associated data that go with it.
abbrev is_known : List ℕ → List ℕ → Bool
is_known nonce aad =
    eq_bytes nonce (1 ∷ 0 ∷ 1 ∷ 63 ∷ 252 ∷ 9 ∷ 0 ∷ []) && eq_bytes aad (0 ∷ 1 ∷ 63 ∷ 252 ∷ [])

abbrev known_cipher : Cipher
known_cipher = record {
  encrypt_in_place = λ nonce aad capacity text.
      if is_known nonce aad && eq_bytes text test_payload then some encrypted else none;
  decrypt_in_place = λ nonce aad capacity text.
      if is_known nonce aad && eq_bytes text encrypted then some test_payload else none;
}

-- Each test returns with a cipher that maps the payload to the bytes in the tests.
frame_tests :
    All
      (λ test. test ≡ returns tt)
      (test_datagram_serialisation toy_frames toy_extend known_cipher
        ∷ test_datagram_deserialisation toy_frames toy_extend known_cipher
        ∷ [])
unfolding test_datagram_serialisation test_datagram_deserialisation to_packed parse new_nonce
frame_tests = (refl, (refl, tt))
