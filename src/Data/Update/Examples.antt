-- ===== src/Data/Update/Examples.antt =====
-- The tests of data/src/update.rs, and the theorems on versions at concrete inputs.
use Prim.Native.Nat.{compare}
use Prim.Native.Nat.Ordering.{lt}
use flip_flop_protocol.Common.{◌≡◌, ◌↔◌, refl, arith, none, some, ◌∷◌, ◌++◌}
use flip_flop_protocol.Common.{ℕ, true, List, [], replicate}
use flip_flop_protocol.Common.Outcome.{returns}
use flip_flop_protocol.Data.Frame.Toy.{
  toy_frames, toy_frames-IsCodec, toy_extend, toy_extend-IsExtend, toy_cipher, toy_cipher-IsAead,
}
use flip_flop_protocol.Data.Frame.{new_nonce}
use flip_flop_protocol.Data.Frame.Encode.{to_datagram}
use flip_flop_protocol.Data.Header.{to_packed}
use flip_flop_protocol.Common.{◌+◌, ◌/◌, ◌%◌, All}
use flip_flop_protocol.Data.Update.Client.{
  Sent, update_servers, update_loop, create_update_request, Delay, server_request_receive_time,
  update_processing_time,
}
use flip_flop_protocol.Data.Update.Chunks.{Tiles}
use flip_flop_protocol.Data.Update.Server.{process_client_update_request, UpdateInfo}
use flip_flop_protocol.Data.Update.Delivery.{update_servers-Tiles}
use flip_flop_protocol.Data.Update.Toy.{
  toy_slice, toy_slice-IsFromSlice, toy_updates, toy_updates-IsCodec, update_bytes-IsUpdateBytes,
  toy_prepares,
}
use flip_flop_protocol.Common.Text.{codes, after_once, split_once, parse_u8, show_u8}
use flip_flop_protocol.Data.Update.{alpha, beta, Version}
use flip_flop_protocol.Data.Update.Order.{version_cmp, rank, version_cmp-rank}
use flip_flop_protocol.Data.Update.Text.{to_string, show_core, from_str}
use flip_flop_protocol.Data.Update.Text.RoundTrip.{from_str-to_string}
use flip_flop_protocol.Data.Update.Text.Unknown.{from_str-unknown_pre}
use flip_flop_protocol.Data.Update.Text.Grammar.{IsText, from_str-IsText}

abbrev release : Version
release = record { major = 1; minor = 2; patch = 3; pre = none }

abbrev early : Version
early = record { major = 1; minor = 2; patch = 3; pre = some (alpha 4) }

abbrev late : Version
late = record { major = 1; minor = 2; patch = 3; pre = some (beta 1) }

parses :
    (from_str (codes "1.2.3") ≡ some release)
    × (from_str (codes "1.2.3-alpha.4") ≡ some early)
    × (from_str (codes "1.2.3-beta.1+some-additional-ident") ≡ some late)
    × (from_str (codes "1.2.3+some-additional-ident") ≡ some release)
unfolding from_str split_once parse_u8 after_once
parses = (refl, refl, refl, refl)

prints : (to_string release ≡ codes "1.2.3") × (to_string early ≡ codes "1.2.3-alpha.4")
unfolding to_string show_u8
prints = (refl, refl)

refuses :
    (from_str (codes "1.2") ≡ none)
    × (from_str (codes "1.2.256") ≡ none)
    × (from_str (codes "1.2.x") ≡ none)
    × (from_str (codes "1.2.3-alpha.") ≡ none)
unfolding from_str split_once parse_u8 after_once
refuses = (refl, refl, refl, refl)

-- A plus sign before a number is accepted, and an unknown designator is dropped.
accepts :
    (from_str (codes "+1.2.3") ≡ some release)
    × (from_str (codes "1.2.3-rc.1") ≡ some release)
    × (from_str (codes "1.2.3-prealpha.4") ≡ some early)
unfolding from_str split_once parse_u8 after_once
accepts = (refl, refl, refl)

compares :
    (version_cmp early late ≡ lt)
    × (version_cmp late release ≡ lt)
    × (version_cmp release (record release { major = 2 }) ≡ lt)
unfolding version_cmp
compares = (refl, refl, refl)

version_cmp-rank_example : version_cmp early release ≡ compare (rank early) (rank release)
version_cmp-rank_example = version_cmp-rank early release (omega arith) (omega arith)

from_str-to_string_example :
    (from_str (to_string early) ≡ some early)
    × (from_str (to_string early ++ b'+' ∷ codes "7") ≡ some early)
from_str-to_string_example = from_str-to_string early (codes "7") (omega arith)

from_str-unknown_pre_example : from_str (show_core 1 2 3 ++ b'-' ∷ codes "rc.1") ≡ some release
unfolding after_once
from_str-unknown_pre_example =
    from_str-unknown_pre 1 2 3 (codes "rc.1") (omega arith) (omega arith) (omega arith)
      (omega arith) refl refl

from_str-IsText_example :
    (from_str (codes "1.2.3-beta.1+some-additional-ident") ≡ some late)
    ↔ IsText (codes "1.2.3-beta.1+some-additional-ident") late
from_str-IsText_example = from_str-IsText (codes "1.2.3-beta.1+some-additional-ident") late

-- An update of 60 bytes at a server with an empty tag.
abbrev firmware : List ℕ
firmware = replicate 60 7

abbrev firmware_info : UpdateInfo
firmware_info = record { cipher = toy_cipher; byte_len = 60; next_byte_offset = 0 }

abbrev zeros : List ℕ
zeros = replicate 42 0

-- A packet of the update, behind the header: the packet as a frame with an empty tag.
abbrev packet_of : ℕ → ℕ → ℕ → ℕ → List ℕ → List ℕ → List ℕ
packet_of counter_high counter_low offset n bytes tail =
    (counter_high ∷ counter_low ∷ 8 ∷ 0 ∷ (n + 9) ∷ 0 ∷ 0 ∷ 0 ∷ offset ∷ n ∷ [])
    ++ bytes
    ++ (0 ∷ 0 ∷ 0 ∷ 0 ∷ tail)

abbrev sent_of : ℕ → ℕ → ℕ → List ℕ → Delay → Sent
sent_of frame_counter offset n tail delay = record {
  update = record { byte_offset = offset; bytes = replicate n 7 };
  datagram = packet_of (frame_counter / 256) (frame_counter % 256) offset n (replicate n 7) tail;
  frame_counter = frame_counter;
  delay = delay;
}

abbrev firmware_sent : List Sent
firmware_sent =
    sent_of 65535 0 27 (0 ∷ []) server_request_receive_time
    ∷ sent_of 0 27 27 (0 ∷ []) server_request_receive_time
    ∷ sent_of 1 54 6 (replicate 17 7 ++ replicate 5 0) update_processing_time
    ∷ []

firmware_runs :
    update_servers toy_frames toy_extend toy_updates toy_slice
      (λ key. toy_cipher)
      (λ o. true)
      firmware
      []
      60
      65535
      zeros
    ≡ returns firmware_sent
unfolding update_servers update_loop create_update_request to_datagram to_packed new_nonce
firmware_runs = refl

update_servers-Tiles_example :
    (ss : List Sent) × (update_servers toy_frames toy_extend toy_updates toy_slice
        (λ key. toy_cipher)
        (λ o. true)
        firmware
        []
        60
        0
        zeros
      ≡ returns ss)
    × Tiles 0 60 firmware ss
    × All
        (λ s.
          process_client_update_request toy_frames toy_extend toy_updates toy_prepares toy_cipher
            s.datagram
          ≡ some s.update)
        ss
update_servers-Tiles_example =
    update_servers-Tiles toy_frames-IsCodec toy_extend-IsExtend toy_updates-IsCodec
      update_bytes-IsUpdateBytes toy_prepares toy_slice-IsFromSlice (λ key. toy_cipher)
      (λ key. toy_cipher-IsAead) (λ o. true) (λ o. refl) firmware [] 0 zeros (omega arith)
      (omega arith) (omega arith) refl
