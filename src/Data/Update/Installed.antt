-- ===== src/Data/Update/Installed.antt =====
-- data/examples/update/main.rs: what a server installs of the client's task, over a channel that
-- loses, repeats and mixes packets.
mod Examples
use flip_flop_protocol.Common.{
  ℕ, ◌+◌, ◌^◌, ◌<◌, ◌≡◌, refl, sym, ap, ◌∙◌, arith, Bool, true, none, some, List, [], ◌∷◌, ◌++◌,
  length, length-append, append_assoc, All, All-both, inl, inr,
}
use flip_flop_protocol.Common.Words.{IsByte}
use flip_flop_protocol.Common.Text.{codes}
use flip_flop_protocol.Common.Outcome.{Outcome, returns, unwrap, ◌>>=◌}
use flip_flop_protocol.Data.Crates.{Cipher, IsAead, Extend, IsExtend, Codec, IsCodec}
use flip_flop_protocol.Data.Frame.{DataFrame, IsFrame, frame_bytes, mic_size}
use flip_flop_protocol.Data.Update.{Update, PrepareForUpdate}
use flip_flop_protocol.Data.Update.Text.{from_str}
use flip_flop_protocol.Data.Update.Client.{FromSlice, IsFromSlice, Sent}
use flip_flop_protocol.Data.Update.Chunks.{IsUpdate, Tiles, IsChunk}
use flip_flop_protocol.Data.Update.Packets.{IsUpdateBytes}
use flip_flop_protocol.Data.Update.Task.{client_task-Tiles}
use flip_flop_protocol.Data.Update.Server.{
  process_client_update_request, process_client_prepare_for_update_request,
}
use flip_flop_protocol.Data.Update.Prepare.{ServerKey, prepare_for_update, client_task}
use flip_flop_protocol.Data.Update.Prepared.{IsPrepare, IsPrepareBytes}
use flip_flop_protocol.Data.Update.Origin.{AnyOf}
use flip_flop_protocol.Data.Update.Watch.{
  Watch, watch_packets, watch_packets-receive_packets, IsPart, IsBeginning, IsOf,
  watch_packets-IsWatch,
}
use flip_flop_protocol.Data.Update.Whole.{server_task, current, from_str-current}

module _ {E : Type 0} (frames : Codec E DataFrame) (extend : Extend) (updates : Codec E Update)
    (prepares : Codec E PrepareForUpdate) (new_cipher : List ℕ → Cipher) where
  -- The server's task with the bytes that it takes.
  unfoldable pub server_watch : ServerKey → List (List ℕ) → Outcome Watch
  server_watch server packets = do
    current_version ← unwrap (from_str (codes "1.2.0"))
    returns (
        watch_packets frames extend updates prepares new_cipher (new_cipher server.network_key)
          current_version (record { active = none; buffer = []; finished = [] }) packets)

-- Each packet of a tiling holds a part.
Tiles-IsPart :
    (before bytes : List ℕ) (total : ℕ) (ss : List Sent) (u : Update)
    → Tiles (length before) total bytes ss
    → AnyOf (λ s. s.update ≡ u) ss
    → IsPart (before ++ bytes) u
unfolding Tiles IsChunk
Tiles-IsPart before bytes total [] u tiles any = absurd any
Tiles-IsPart before bytes total (s ∷ ss) u ((at, _, _, _, _), (rest, e, tiles)) (inl same) =
    let part : s.update.bytes ≡ u.bytes = ap (λ (v : Update). v.bytes) same in
    let offset : s.update.byte_offset ≡ u.byte_offset = ap (λ (v : Update). v.byte_offset) same in
    (before, rest, ap (before ++◌) (rw part at e), sym at ∙ offset)
Tiles-IsPart before bytes total (s ∷ ss) u ((at, _, _, _, _), (rest, e, tiles)) (inr later) =
    let size : length before + length s.update.bytes ≡ length (before ++ s.update.bytes) =
      sym (length-append before s.update.bytes) in
    let part = Tiles-IsPart (before ++ s.update.bytes) rest total ss u (rw size at tiles) later in
    rw (e, ← append_assoc before s.update.bytes rest) part

sent_packets : Outcome (List (List ℕ) × List Sent) → List Sent
sent_packets (returns (ds, ss)) = ss
sent_packets _ = []

module _ {E : Type 0} {frames : Codec E DataFrame} (codec : IsCodec frames IsFrame frame_bytes)
    {extend : Extend} (vectors : IsExtend extend) {updates : Codec E Update}
    {update_bytes : Update → List ℕ} (update_codec : IsCodec updates IsUpdate update_bytes)
    (update_laws : IsUpdateBytes update_bytes) {prepares : Codec E PrepareForUpdate}
    {prepare_bytes : PrepareForUpdate → List ℕ}
    (prepare_codec : IsCodec prepares IsPrepare prepare_bytes)
    (prepare_laws : IsPrepareBytes prepare_bytes) {from_slice : FromSlice}
    (vec : IsFromSlice from_slice) (new_cipher : List ℕ → Cipher)
    (aead : (k : List ℕ) → IsAead mic_size (new_cipher k)) (accepts : ℕ → Bool)
    (open_channel : (o : ℕ) → accepts o ≡ true) (bytes update_key : List ℕ)
    (servers : List ServerKey) where
  client_task-IsPart :
      (preparing : List (List ℕ)) (ss : List Sent) (u : Update)
      → length bytes < 2 ^ 28
      → All IsByte bytes
      → All IsByte update_key
      → length update_key ≡ 16
      → client_task frames extend updates prepares from_slice new_cipher accepts accepts bytes
          servers update_key
        ≡ returns (preparing, ss)
      → AnyOf (λ s. s.update ≡ u) ss
      → IsPart bytes u
  unfolding sent_packets
  client_task-IsPart preparing ss u hl hb hk hk' e any =
      let (preparing', ss', runs, all, tiles, read) =
        client_task-Tiles codec vectors update_codec update_laws prepare_codec prepare_laws vec
          new_cipher aead accepts open_channel bytes update_key servers hl hb hk hk' in
      let same : ss' ≡ ss = ap sent_packets (sym runs ∙ e) in
      Tiles-IsPart [] bytes (length bytes) ss u (rw same at tiles) any

  -- For an update below 2 ^ 28 bytes with a key of 16 bytes and a channel that takes every packet:
  -- whatever packets then come to a server, in whatever order and however often, if each that it
  -- reads under its own key is the client's message that prepares the update, and each that it
  -- reads under the update's key is an update that the client has sent, then every image that the
  -- server's task finishes is the client's update byte for byte, and what it has of an active one
  -- is the update's beginning up to the offset that it expects next.
  pub server_watch-client_task :
      (server : ServerKey) (preparing ds : List (List ℕ)) (ss : List Sent)
      → length bytes < 2 ^ 28
      → All IsByte bytes
      → All IsByte update_key
      → length update_key ≡ 16
      → client_task frames extend updates prepares from_slice new_cipher accepts accepts bytes
          servers update_key
        ≡ returns (preparing, ss)
      → All
          (λ d.
            (p : PrepareForUpdate)
            → process_client_prepare_for_update_request frames extend updates prepares
                (new_cipher server.network_key)
                d
              ≡ some p
            → p ≡ prepare_for_update update_key (length bytes))
          ds
      → All
          (λ d.
            (u : Update)
            → process_client_update_request frames extend updates prepares (new_cipher update_key) d
              ≡ some u
            → AnyOf (λ s. s.update ≡ u) ss)
          ds
      → (w : Watch) × (server_watch frames extend updates prepares new_cipher server ds ≡ returns w)
        × (server_task frames extend updates prepares new_cipher server ds ≡ returns w.active)
        × All (λ image. image ≡ bytes) w.finished
        × IsBeginning (new_cipher update_key) bytes w.active w.buffer
  unfolding server_watch server_task
  server_watch-client_task server preparing ds ss hl hb hk hk' e prepared updated =
      let start : Watch = record { active = none; buffer = []; finished = [] } in
      let cipher = new_cipher server.network_key in
      let w = watch_packets frames extend updates prepares new_cipher cipher current start ds in
      let of_ds =
        All-both _ _
          (IsOf frames extend updates prepares new_cipher cipher current (new_cipher update_key)
            bytes)
          (λ d of_prepare of_update. (
            (λ p read.
                let same = of_prepare p read in
                (
                  ap (λ (q : PrepareForUpdate). new_cipher q.update_key.key) same,
                  ap (λ (q : PrepareForUpdate). q.update_byte_len) same ∙ omega arith,
                )),
            (λ u read. client_task-IsPart preparing ss u hl hb hk hk' e (of_update u read)),
          ))
          ds prepared updated in
      let (begins, all) =
        watch_packets-IsWatch frames extend updates prepares new_cipher cipher current
          (new_cipher update_key) bytes start ds of_ds (tt, tt) in
      let same =
        watch_packets-receive_packets frames extend updates prepares new_cipher cipher current start
          ds in
      (w, rw from_str-current refl, rw from_str-current (ap returns (sym same)), all, begins)
