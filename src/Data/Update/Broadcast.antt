-- ===== src/Data/Update/Broadcast.antt =====
-- data/examples/update/main.rs: what each server installs of the client's task where no packet is
-- lost.
mod Examples
use flip_flop_protocol.Common.{
  ℕ, ◌^◌, ◌<◌, ◌≡◌, refl, sym, ap, ◌∙◌, arith, Bool, true, false, none, some, List, [], ◌∷◌, ◌++◌,
  length, All, inl, inr,
}
use flip_flop_protocol.Common.Words.{IsByte}
use flip_flop_protocol.Common.Outcome.{Outcome, returns}
use flip_flop_protocol.Data.Crates.{Cipher, IsAead, Extend, IsExtend, Codec, IsCodec}
use flip_flop_protocol.Data.Frame.{DataFrame, IsFrame, frame_bytes, mic_size}
use flip_flop_protocol.Data.Update.{Update, PrepareForUpdate}
use flip_flop_protocol.Data.Update.Client.{FromSlice, IsFromSlice, Sent}
use flip_flop_protocol.Data.Update.Chunks.{IsUpdate}
use flip_flop_protocol.Data.Update.Packets.{IsUpdateBytes}
use flip_flop_protocol.Data.Update.Task.{client_task-Tiles}
use flip_flop_protocol.Data.Update.Server.{
  process_client_update_request, process_client_prepare_for_update_request,
}
use flip_flop_protocol.Data.Update.Prepare.{ServerKey, prepare_for_update, client_task}
use flip_flop_protocol.Data.Update.Prepared.{IsPrepare, IsPrepareBytes, ArePrepared}
use flip_flop_protocol.Data.Update.Session.{datagrams_of}
use flip_flop_protocol.Data.Update.Origin.{AnyOf}
use flip_flop_protocol.Data.Update.Watch.{Watch, watch_packets, watch_packets-receive_packets}
use flip_flop_protocol.Data.Update.Whole.{
  server_task, update_info_of, current, from_str-current, activate-prepare_for_update,
}
use flip_flop_protocol.Data.Update.Installed.{server_watch}
use flip_flop_protocol.Data.Update.Watch.Steps.{
  watch_packets-append, watch_packets_prepare, watch_packets-Tiles,
}

-- The packets that prepare the servers, where the client's task returns.
abbrev pub preparing_of : Outcome (List (List ℕ) × List Sent) → List (List ℕ)
preparing_of (returns (ds, ss)) = ds
preparing_of _ = []

module _ {E : Type 0} (frames : Codec E DataFrame) (extend : Extend) (updates : Codec E Update)
    (prepares : Codec E PrepareForUpdate) (new_cipher : List ℕ → Cipher) (update_key : List ℕ)
    (update_len : ℕ) where
  ArePrepared-AnyOf :
      (server : ServerKey) (servers : List ServerKey) (ds : List (List ℕ))
      → ArePrepared frames extend updates prepares new_cipher update_key update_len servers ds
      → AnyOf (λ s. s ≡ server) servers
      → AnyOf
          (λ d.
            process_client_prepare_for_update_request frames extend updates prepares
              (new_cipher server.network_key)
              d
            ≡ some (prepare_for_update update_key update_len))
          ds
  ArePrepared-AnyOf server [] ds p any = absurd any
  ArePrepared-AnyOf server (s ∷ servers) [] p any = absurd p
  ArePrepared-AnyOf server (s ∷ servers) (d ∷ ds) (read, p) (inl same) = inl (rw same at read)
  ArePrepared-AnyOf server (s ∷ servers) (d ∷ ds) (read, p) (inr later) =
      inr (ArePrepared-AnyOf server servers ds p later)

module _ {E : Type 0} {frames : Codec E DataFrame} (codec : IsCodec frames IsFrame frame_bytes)
    {extend : Extend} (vectors : IsExtend extend) {updates : Codec E Update}
    {update_bytes : Update → List ℕ} (update_codec : IsCodec updates IsUpdate update_bytes)
    (update_laws : IsUpdateBytes update_bytes) {prepares : Codec E PrepareForUpdate}
    {prepare_bytes : PrepareForUpdate → List ℕ}
    (prepare_codec : IsCodec prepares IsPrepare prepare_bytes)
    (prepare_laws : IsPrepareBytes prepare_bytes) {from_slice : FromSlice}
    (vec : IsFromSlice from_slice) (new_cipher : List ℕ → Cipher)
    (aead : (k : List ℕ) → IsAead mic_size (new_cipher k)) (accepts : ℕ → Bool)
    (open_channel : (o : ℕ) → accepts o ≡ true) (bytes update_key : List ℕ)
    (servers : List ServerKey) where
  -- For 1 to 2 ^ 28 - 1 bytes, a key of 16 bytes and a channel that takes and gives every packet,
  -- with any number of servers: the client's task returns, and each of the servers, if of the
  -- packets that prepare one it reads none under the update's key, and under its own only the
  -- client's message, finishes one image, the update byte for byte, and has none active behind it.
  pub server_watch-broadcast :
      (server : ServerKey)
      → let run =
          client_task frames extend updates prepares from_slice new_cipher accepts accepts bytes
            servers update_key in
        0 < length bytes
        → length bytes < 2 ^ 28
        → All IsByte bytes
        → All IsByte update_key
        → length update_key ≡ 16
        → AnyOf (λ s. s ≡ server) servers
        → All
            (λ d.
              process_client_update_request frames extend updates prepares (new_cipher update_key) d
              ≡ none)
            (preparing_of run)
        → All
            (λ d.
              (p : PrepareForUpdate)
              → process_client_prepare_for_update_request frames extend updates prepares
                  (new_cipher server.network_key)
                  d
                ≡ some p
              → p ≡ prepare_for_update update_key (length bytes))
            (preparing_of run)
        → (preparing : List (List ℕ)) × (ss : List Sent) × (run ≡ returns (preparing, ss))
          × (server_watch frames extend updates prepares new_cipher server
                (preparing ++ datagrams_of ss)
              ≡ returns (record { active = none; buffer = []; finished = bytes ∷ [] }))
          × (server_task frames extend updates prepares new_cipher server
                (preparing ++ datagrams_of ss)
              ≡ returns none)
  unfolding server_watch server_task
  server_watch-broadcast server more hl hb hk hk' one unread own =
      let (preparing, ss, runs, all, tiles, read) =
        client_task-Tiles codec vectors update_codec update_laws prepare_codec prepare_laws vec
          new_cipher aead accepts open_channel bytes update_key servers hl hb hk hk' in
      let i = update_info_of new_cipher update_key (length bytes) in
      let p = prepare_for_update update_key (length bytes) in
      let cipher = new_cipher server.network_key in
      let activates =
        activate-prepare_for_update new_cipher update_key (length bytes) (omega arith) in
      let for_it =
        ArePrepared-AnyOf frames extend updates prepares new_cipher update_key (length bytes) server
          servers preparing all one in
      let begun =
        watch_packets_prepare frames extend updates prepares new_cipher cipher current p i activates
          false preparing (rw runs at unread) (rw runs at own) (inr for_it) in
      let ended =
        watch_packets-Tiles frames extend updates prepares new_cipher cipher current 0 bytes [] []
          ss i tiles (omega arith) more refl read in
      let start : Watch = record { active = none; buffer = []; finished = [] } in
      let whole : watch_packets frames extend updates prepares new_cipher cipher current start
            (preparing ++ datagrams_of ss)
          ≡ record { active = none; buffer = []; finished = bytes ∷ [] } =
        watch_packets-append frames extend updates prepares new_cipher cipher current preparing
          (datagrams_of ss) start
        ∙ ap
            (λ w.
              watch_packets frames extend updates prepares new_cipher cipher current w
                (datagrams_of ss))
            begun
        ∙ ended in
      let same =
        watch_packets-receive_packets frames extend updates prepares new_cipher cipher current start
          (preparing ++ datagrams_of ss) in
      (
        preparing,
        ss,
        runs,
        rw (server_watch, from_str-current) (ap returns whole),
        rw (server_task, from_str-current)
            (ap returns (sym same ∙ ap (λ (w : Watch). w.active) whole)),
      )
