-- ===== src/Data/Update/Chunks.antt =====
-- data/examples/update/main.rs: the packets of an update tile it.
use flip_flop_protocol.Common.{
  All, take-All, drop-All, ℕ, zero, suc, ◌+◌, ◌-◌, ◌*◌, ◌/◌, ◌%◌, ◌^◌, ◌≤◌, ◌<◌, ◌≡◌, refl, sym,
  arith, take-drop, drop-drop, drop-length, Bool, true, ◌||◌, List, [], ◌∷◌, ◌++◌, ltb, ◌==◌,
  if◌then◌else◌, length, take, drop, min, length-take, length-drop, Bool-cases, inl, inr,
}
use flip_flop_protocol.Common.Words.{IsByte, u16, u32}
use flip_flop_protocol.Common.Outcome.{Outcome, returns}
use flip_flop_protocol.Data.Update.{Update}
use flip_flop_protocol.Data.Update.Client.{
  update_bytes_size, update_bytes_processing_threshold, Sent, server_request_receive_time,
  update_processing_time, FromSlice, IsFromSlice, slice, update_loop,
}

-- An `Update<UPDATE_BYTES_SIZE>` whose offset takes four bytes in postcard: seven bits in each.
pub record IsUpdate (u : Update) : Type 0 where
  pub offset_u28 : u.byte_offset < 2 ^ 28
  pub bytes_u8 : All IsByte u.bytes
  pub bytes_fit : length u.bytes ≤ update_bytes_size

-- The packets hold the bytes from an offset on, in order: between 1 and 27 in each, none across a
-- multiple of 4096, and the long pause where one ends there or at the end of the update.
unfoldable pub IsChunk : ℕ → ℕ → Sent → Type 0
IsChunk offset total s =
    (s.update.byte_offset ≡ offset)
    × (0 < length s.update.bytes)
    × (length s.update.bytes ≤ update_bytes_size)
    × (offset + length s.update.bytes ≤ (offset / 4096 + 1) * 4096)
    × (s.delay ≡ (
        if (offset + length s.update.bytes) % 4096 == 0 || offset + length s.update.bytes == total
        then update_processing_time
        else server_request_receive_time))

unfoldable pub Tiles : ℕ → ℕ → List ℕ → List Sent → Type 0
Tiles offset total bytes [] = bytes ≡ []
Tiles offset total bytes (s ∷ ss) =
    IsChunk offset total s
    × ((rest : List ℕ) × (bytes ≡ s.update.bytes ++ rest)
        × Tiles (offset + length s.update.bytes) total rest ss)

-- The threshold at an offset.
abbrev threshold_at : ℕ → ℕ → ℕ
threshold_at offset total = min ((offset / 4096 + 1) * 4096) total

module _ (from_slice : FromSlice) (vec : IsFromSlice from_slice) (bytes : List ℕ) where
  total : ℕ
  total = length bytes

  chunk_end : ℕ → ℕ
  chunk_end offset = min (offset + update_bytes_size) (threshold_at offset (length bytes))

  slice_chunk :
      (offset to : ℕ)
      → offset < length bytes
      → to ≡ chunk_end offset
      → slice bytes offset to ≡ returns (take (to - offset) (drop offset bytes))
  unfolding chunk_end
  slice_chunk offset to h e = ground arith

  length-chunk :
      (offset to : ℕ)
      → offset < length bytes
      → to ≡ chunk_end offset
      → length (take (to - offset) (drop offset bytes)) ≡ to - offset
  unfolding chunk_end
  length-chunk offset to h e =
      omega (arith, length-take (to - offset) (drop offset bytes), length-drop offset bytes)

  chunk_split :
      (offset to : ℕ)
      → offset ≤ to
      → drop offset bytes ≡ take (to - offset) (drop offset bytes) ++ drop to bytes
  chunk_split offset to h =
      let at : offset + (to - offset) ≡ to = omega arith in
      let later = rw at at (drop-drop offset (to - offset) bytes) in
      rw (← later) (sym (take-drop (to - offset) (drop offset bytes)))

  -- The threshold of the next round.
  threshold_step :
      (offset to : ℕ)
      → offset < length bytes
      → to ≡ chunk_end offset
      → to < length bytes
      → (if to == threshold_at offset (length bytes)
          then min
              (threshold_at offset (length bytes) + update_bytes_processing_threshold)
              (length bytes)
          else threshold_at offset (length bytes))
        ≡ threshold_at to (length bytes)
  unfolding chunk_end
  threshold_step offset to h e h' = ground arith

  -- The packet of a round that starts at an offset.
  update_at : ℕ → ℕ → Update
  update_at offset to = record {
    byte_offset = u32 offset;
    bytes = take (to - offset) (drop offset bytes);
  }

  sent_at : ℕ → ℕ → ℕ → List ℕ → Sent
  unfolding update_at
  sent_at offset to frame_counter datagram = record {
    update = update_at offset to;
    datagram = datagram;
    frame_counter = frame_counter;
    delay =
        if to == threshold_at offset (length bytes)
        then update_processing_time
        else server_request_receive_time;
  }

  sent_at-IsChunk :
      (offset to frame_counter : ℕ) (datagram : List ℕ)
      → offset < length bytes
      → length bytes < 2 ^ 28
      → to ≡ chunk_end offset
      → IsChunk offset (length bytes) (sent_at offset to frame_counter datagram)
  unfolding IsChunk sent_at chunk_end update_at
  sent_at-IsChunk offset to frame_counter datagram h hl e =
      let len = length-chunk offset to h e in
      (omega arith, omega arith, omega arith, omega arith, ground arith)

  update_at-IsUpdate :
      (offset to : ℕ)
      → offset < length bytes
      → length bytes < 2 ^ 28
      → to ≡ chunk_end offset
      → All IsByte bytes
      → IsUpdate (update_at offset to)
  unfolding update_at chunk_end
  update_at-IsUpdate offset to h hl e hb = record {
    offset_u28 = omega arith;
    bytes_u8 = take-All IsByte (to - offset) (drop offset bytes) (drop-All IsByte offset bytes hb);
    bytes_fit = omega (arith, length-chunk offset to h e);
  }

  -- A way to make datagrams that does so for every update that fits, into a buffer of its length.
  module _ (create : Update → ℕ → List ℕ → Outcome (List ℕ)) (Reads : List ℕ → Update → Type 0)
      (size : ℕ)
      (creates : (u : Update) (frame_counter : ℕ) (buf : List ℕ)
        → IsUpdate u
        → frame_counter < 2 ^ 16
        → length buf ≡ size
        → (out : List ℕ) × (create u frame_counter buf ≡ returns out)
          × (length out ≡ size)
          × Reads out u)
      (accepts : ℕ → Bool) (open_channel : (o : ℕ) → accepts o ≡ true) where
    pub update_loop-Tiles :
        (fuel offset threshold frame_counter : ℕ) (buf : List ℕ)
        → offset ≤ length bytes
        → length bytes < offset + fuel
        → length bytes < 2 ^ 28
        → All IsByte bytes
        → (offset < length bytes → threshold ≡ threshold_at offset (length bytes))
        → frame_counter < 2 ^ 16
        → length buf ≡ size
        → (ss : List Sent) × (update_loop from_slice create accepts bytes
              (length bytes)
              fuel
              offset
              threshold
              frame_counter
              buf
            ≡ returns ss)
          × Tiles offset (length bytes) (drop offset bytes) ss
          × All (λ s. Reads s.datagram s.update) ss
    unfolding update_loop Tiles sent_at chunk_end update_at
    update_loop-Tiles zero offset threshold frame_counter buf h₁ h₂ hl hb ht hf hs =
        absurd (omega arith)
    update_loop-Tiles (suc fuel) offset threshold frame_counter buf h₁ h₂ hl hb ht hf hs =
        elim (Bool-cases (ltb offset (length bytes))) [
          | inl t ↦
              let more : offset < length bytes = ground arith in
              let to = chunk_end offset in
              let threshold' = threshold_at offset (length bytes) in
              let next =
                if to == threshold'
                then min (threshold' + update_bytes_processing_threshold) (length bytes)
                else threshold' in
              let (out, made, out_size, reads) =
                creates (update_at offset to) frame_counter buf
                  (update_at-IsUpdate offset to more hl refl hb) hf hs in
              let (ss, ran, tiles, all) =
                update_loop-Tiles fuel to next (u16 (frame_counter + 1)) out (omega arith)
                  (omega arith) hl hb (threshold_step offset to more refl) (omega arith) out_size in
              let chunk_len = length-chunk offset to more refl in
              let chunk = take (to - offset) (drop offset bytes) in
              let shift : offset + length chunk ≡ to = omega arith in
              (
                sent_at offset to frame_counter out ∷ ss,
                rw
                    (
                      t,
                      ht more,
                      slice_chunk offset to more refl,
                      vec.from_slice_fits update_bytes_size chunk (omega arith),
                      made,
                      open_channel offset,
                      ran,
                    )
                    refl,
                (
                  sent_at-IsChunk offset to frame_counter out more hl refl,
                  (drop to bytes, chunk_split offset to (omega arith), rw shift tiles),
                ),
                (reads, all),
              )
          | inr t ↦
              let done : offset ≡ length bytes = ground arith in
              ([], rw t refl, rw done (drop-length bytes), tt)
        ]
