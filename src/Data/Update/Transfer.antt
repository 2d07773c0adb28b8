-- ===== src/Data/Update/Transfer.antt =====
-- data/examples/update/main.rs: the client's packets at a server with an active update.
use flip_flop_protocol.Common.{
  ℕ, zero, suc, ◌+◌, ◌<◌, ◌≡◌, refl, ◌∙◌, arith, true, List, [], ◌∷◌, ◌==◌, length, length-append,
  ==_refl, ==_of_ne,
}
use flip_flop_protocol.Common.{suc}
use flip_flop_protocol.Data.Update.{Update}
use flip_flop_protocol.Data.Update.Client.{Sent}
use flip_flop_protocol.Data.Update.Chunks.{IsChunk, Tiles}
use flip_flop_protocol.Data.Update.Server.{UpdateInfo, process_active_update, process_updates}

abbrev pub updates_of : List Sent → List Update
updates_of [] = []
updates_of (s ∷ ss) = s.update ∷ updates_of ss

-- The packets without the one at a place.
abbrev pub remove : ℕ → List Sent → List Sent
remove k [] = []
remove zero (s ∷ ss) = ss
remove (suc k) (s ∷ ss) = s ∷ remove k ss

abbrev pub at_offset : ℕ → UpdateInfo → UpdateInfo
at_offset n update_info = record update_info { next_byte_offset = n }

pub Tiles-length :
    (offset total : ℕ) (bytes : List ℕ) (s : Sent) (ss : List Sent)
    → Tiles offset total bytes (s ∷ ss)
    → 0 < length bytes
unfolding Tiles IsChunk
Tiles-length offset total bytes s ss (c, (rest, e, t)) =
    let more = c.1 in rw e (omega (arith, length-append s.update.bytes rest))

module _ (total : ℕ) where
  pub process_chunk :
      (offset : ℕ) (s : Sent) (update_info : UpdateInfo)
      → IsChunk offset total s
      → update_info.byte_len ≡ total
      → update_info.next_byte_offset ≡ offset
      → process_active_update update_info s.update ≡ (
        offset + length s.update.bytes == total,
        at_offset (offset + length s.update.bytes) update_info,
      )
  unfolding process_active_update IsChunk
  process_chunk offset s update_info c hl hn = rw (c.0, hn, hl, ==_refl offset) refl

  process_updates_last :
      (offset : ℕ) (s : Sent) (us : List Update) (update_info : UpdateInfo)
      → IsChunk offset total s
      → update_info.byte_len ≡ total
      → update_info.next_byte_offset ≡ offset
      → offset + length s.update.bytes ≡ total
      → process_updates update_info (s.update ∷ us) ≡ (true, at_offset total update_info)
  unfolding process_updates
  process_updates_last offset s us update_info c hl hn e =
      rw (process_chunk offset s update_info c hl hn, e, ==_refl total) refl

  process_updates_more :
      (offset : ℕ) (s : Sent) (us : List Update) (update_info : UpdateInfo)
      → IsChunk offset total s
      → update_info.byte_len ≡ total
      → update_info.next_byte_offset ≡ offset
      → offset + length s.update.bytes < total
      → process_updates update_info (s.update ∷ us)
        ≡ process_updates (at_offset (offset + length s.update.bytes) update_info) us
  unfolding process_updates
  process_updates_more offset s us update_info c hl hn e =
      rw
        (
          process_chunk offset s update_info c hl hn,
          ==_of_ne (offset + length s.update.bytes) total (omega arith),
        )
        refl

  pub process_updates-Tiles :
      (offset : ℕ) (bytes : List ℕ) (ss : List Sent) (update_info : UpdateInfo)
      → Tiles offset total bytes ss
      → total ≡ offset + length bytes
      → 0 < length bytes
      → update_info.byte_len ≡ total
      → update_info.next_byte_offset ≡ offset
      → process_updates update_info (updates_of ss) ≡ (true, at_offset total update_info)
  unfolding Tiles
  process_updates-Tiles offset bytes [] update_info t e more hl hn =
      absurd (omega (arith, rw t at more))
  process_updates-Tiles offset bytes (s ∷ []) update_info (c, (rest, e', t)) e more hl hn =
      let len = length-append s.update.bytes [] in
      let whole : length bytes ≡ length s.update.bytes = rw (e', t) (omega arith) in
      process_updates_last offset s [] update_info c hl hn (omega arith)
  process_updates-Tiles offset bytes (s ∷ s' ∷ ss) update_info (c, (rest, e', t)) e more hl hn =
      let len = length-append s.update.bytes rest in
      let split : length bytes ≡ length s.update.bytes + length rest = rw e' len in
      let left = Tiles-length (offset + length s.update.bytes) total rest s' ss t in
      process_updates_more offset s (updates_of (s' ∷ ss)) update_info c hl hn (omega arith)
      ∙ process_updates-Tiles (offset + length s.update.bytes) rest (s' ∷ ss)
          (at_offset (offset + length s.update.bytes) update_info) t (omega arith) left hl refl

  -- With a packet missing.
  pub process_updates-remove :
      (k offset : ℕ) (bytes : List ℕ) (ss : List Sent) (update_info : UpdateInfo)
      → Tiles offset total bytes ss
      → k < length ss
      → total ≡ offset + length bytes
      → update_info.byte_len ≡ total
      → update_info.next_byte_offset ≡ offset
      → (process_updates update_info (updates_of (remove k ss))).1.next_byte_offset < total
  unfolding Tiles process_updates process_active_update IsChunk
  process_updates-remove k offset bytes [] update_info t h e hl hn = absurd (omega arith)
  process_updates-remove zero offset bytes (s ∷ []) update_info t h e hl hn =
      let some_left = Tiles-length offset total bytes s [] t in omega arith
  process_updates-remove zero offset bytes (s ∷ s' ∷ ss) update_info (c, (rest, e', (c', t))) h e hl
        hn =
      let some_left = Tiles-length offset total bytes s (s' ∷ ss) (c, (rest, e', (c', t))) in
      let later = c'.0 in
      let more = c.1 in
      let differs = ==_of_ne s'.update.byte_offset update_info.next_byte_offset (omega arith) in
      rw differs (omega arith)
  process_updates-remove (suc k) offset bytes (s ∷ []) update_info t h e hl hn =
      absurd (omega arith)
  process_updates-remove (suc k) offset bytes (s ∷ s' ∷ ss) update_info (c, (rest, e', t)) h e hl
        hn =
      let len = length-append s.update.bytes rest in
      let split : length bytes ≡ length s.update.bytes + length rest = rw e' len in
      let left = Tiles-length (offset + length s.update.bytes) total rest s' ss t in
      let next =
        process_updates-remove k (offset + length s.update.bytes) rest (s' ∷ ss)
          (at_offset (offset + length s.update.bytes) update_info) t (omega arith) (omega arith) hl
          refl in
      let here =
        process_updates_more offset s (updates_of (remove k (s' ∷ ss))) update_info c hl hn
          (omega arith) in
      rw here next
