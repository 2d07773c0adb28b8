-- ===== src/Data/Update/Client.antt =====
-- data/examples/update/main.rs: the client cuts an update into packets.
use flip_flop_protocol.Common.{
  ℕ, zero, suc, ◌+◌, ◌-◌, ◌≤◌, ◌<◌, ◌≡◌, Bool, ◌&&◌, Option, none, some, List, [], ◌∷◌, ltb, leb,
  ◌==◌, if◌then◌else◌, length, take, drop, min,
}
use flip_flop_protocol.Common.Words.{u16, u32}
use flip_flop_protocol.Common.Outcome.{Outcome, returns, panics, out_of_fuel, unwrap, ◌>>=◌}
use flip_flop_protocol.Data.Crates.{Cipher, Extend, Codec}
use flip_flop_protocol.Data.Header.{Header, client}
use flip_flop_protocol.Data.Frame.{DataFrame}
use flip_flop_protocol.Data.Frame.Encode.{to_datagram}
use flip_flop_protocol.Data.Discovery.{min_payload_size}
use flip_flop_protocol.Data.Update.{Update, update_bytes_overhead}

abbrev pub update_bytes_size : ℕ
update_bytes_size = min_payload_size - update_bytes_overhead

abbrev pub update_bytes_processing_threshold : ℕ
update_bytes_processing_threshold = 4096

-- The two pauses behind a packet.
pub data Delay : Type 0 where
  server_request_receive_time update_processing_time : Delay

-- A packet that the channel took, and the pause behind it.
pub record Sent : Type 0 where
  pub update : Update
  pub datagram : List ℕ
  pub frame_counter : ℕ
  pub delay : Delay

-- `heapless::Vec::from_slice` at a capacity: `none` is its error.
abbrev pub FromSlice : Type 0
FromSlice = ℕ → List ℕ → Option (List ℕ)

pub record IsFromSlice (from_slice : FromSlice) : Type 0 where
  pub from_slice_fits :
      (capacity : ℕ) (s : List ℕ) → length s ≤ capacity → from_slice capacity s ≡ some s
  pub from_slice_full :
      (capacity : ℕ) (s : List ℕ) → capacity < length s → from_slice capacity s ≡ none

-- `&bytes[from..to]`
abbrev pub slice : List ℕ → ℕ → ℕ → Outcome (List ℕ)
slice bytes from to =
    if leb from to && leb to (length bytes)
    then returns (take (to - from) (drop from bytes))
    else panics

-- The header of both requests, for every server at port 1.
abbrev pub request_header : ℕ → Header
request_header frame_counter = record {
  version = 0;
  source = client;
  server_address = 0;
  server_port = 1;
  frame_counter = frame_counter;
}

module _ {E : Type 0} (frames : Codec E DataFrame) (extend : Extend)
    (updates : Codec E Update) where
  unfoldable pub create_update_request : Cipher → Update → ℕ → List ℕ → Outcome (List ℕ)
  create_update_request update_cipher update frame_counter datagram_buf = do
    payload ← unwrap (updates.to_vec update min_payload_size)
    to_datagram frames extend update_cipher (request_header frame_counter) payload datagram_buf

-- The loop on fuel. `create` is `create_update_request` under the update's cipher, and `accepts` says
-- whether the channel takes the packet at an offset.
module _ (from_slice : FromSlice) (create : Update → ℕ → List ℕ → Outcome (List ℕ))
    (accepts : ℕ → Bool) (bytes : List ℕ) (update_len : ℕ) where
  unfoldable pub update_loop : ℕ → ℕ → ℕ → ℕ → List ℕ → Outcome (List Sent)
  update_loop zero update_byte_offset next_threshold_byte_offset frame_counter datagram_buf =
      out_of_fuel
  update_loop (suc fuel) update_byte_offset next_threshold_byte_offset frame_counter datagram_buf =
      let to_update_byte_offset =
        min (update_byte_offset + update_bytes_size) next_threshold_byte_offset in
      let at_threshold = to_update_byte_offset == next_threshold_byte_offset in
      let next_threshold' =
        if at_threshold
        then min (next_threshold_byte_offset + update_bytes_processing_threshold) update_len
        else next_threshold_byte_offset in
      let delay = if at_threshold then update_processing_time else server_request_receive_time in
      if ltb update_byte_offset (length bytes)
      then (slice bytes update_byte_offset to_update_byte_offset >>= λ update_bytes.
          unwrap (from_slice update_bytes_size update_bytes) >>= λ vec.
          let update : Update = record { byte_offset = u32 update_byte_offset; bytes = vec } in
          create update frame_counter datagram_buf >>= λ datagram.
          let rest =
            update_loop fuel to_update_byte_offset next_threshold' (u16 (frame_counter + 1))
              datagram in
          if accepts update_byte_offset
          then (rest >>= λ sent. returns (
              record {
                update = update;
                datagram = datagram;
                frame_counter = frame_counter;
                delay = delay;
              }
              ∷ sent))
          else returns [])
      else returns []

module _ {E : Type 0} (frames : Codec E DataFrame) (extend : Extend) (updates : Codec E Update)
    (from_slice : FromSlice) (new_cipher : List ℕ → Cipher) (accepts : ℕ → Bool) where
  -- Every round but the last sends a byte at least. `AesCcm::new` is `new_cipher`.
  unfoldable pub update_servers : List ℕ → List ℕ → ℕ → ℕ → List ℕ → Outcome (List Sent)
  update_servers bytes update_key update_len frame_counter datagram_buf =
      update_loop from_slice (create_update_request frames extend updates (new_cipher update_key))
        accepts bytes update_len (suc (length bytes)) 0
        (min update_bytes_processing_threshold update_len) frame_counter datagram_buf
