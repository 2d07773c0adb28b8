-- ===== src/Data/Update/Installed/Examples.antt =====
-- The theorem on what a server installs at a concrete run: an update of 60 bytes, of which packets
-- come twice, late and damaged.
use flip_flop_protocol.Common.{
  ℕ, ◌≡◌, refl, sym, arith, true, Option, none, some, List, [], ◌∷◌, ◌++◌, All, inl, inr, replicate,
}
use flip_flop_protocol.Common.Outcome.{Outcome, returns}
use flip_flop_protocol.Data.Frame.Toy.{
  toy_frames, toy_frames-IsCodec, toy_extend, toy_extend-IsExtend, keyed_cipher,
  keyed_cipher-IsAead,
}
use flip_flop_protocol.Data.Header.{parse, to_packed}
use flip_flop_protocol.Data.Frame.Encode.{to_datagram}
use flip_flop_protocol.Data.Frame.Decode.{from_datagram}
use flip_flop_protocol.Data.Update.Text.{from_str}
use flip_flop_protocol.Data.Update.Order.{version_cmp}
use flip_flop_protocol.Common.Text.{split_once, parse_u8, after_once}
use flip_flop_protocol.Data.Update.{Update, PrepareForUpdate}
use flip_flop_protocol.Data.Update.Client.{
  server_request_receive_time, update_processing_time, Sent, update_servers, update_loop,
  create_update_request,
}
use flip_flop_protocol.Data.Update.Prepare.{
  ServerKey, prepare_for_update, client_task, prepare_servers_for_update,
  create_prepare_update_request,
}
use flip_flop_protocol.Data.Update.Server.{
  process_client_update_request, process_client_prepare_for_update_request, process_active_update,
  activate_update_if_new_version, active_update, receive_packet,
}
use flip_flop_protocol.Data.Update.Origin.{AnyOf}
use flip_flop_protocol.Data.Update.Watch.{Watch, watch_packet, watch_packets, IsBeginning}
use flip_flop_protocol.Data.Update.Whole.{server_task}
use flip_flop_protocol.Data.Update.Installed.{server_watch, server_watch-client_task}
use flip_flop_protocol.Data.Update.Toy.{
  toy_slice, toy_slice-IsFromSlice, toy_updates, toy_updates-IsCodec, update_bytes-IsUpdateBytes,
  toy_prepares, toy_prepares-IsCodec, prepare_bytes-IsPrepareBytes,
}

abbrev firmware : List ℕ
firmware = replicate 30 7

abbrev update_key : List ℕ
update_key = replicate 16 5

abbrev target : ServerKey
target = record { address = 1; network_key = replicate 16 9 }

abbrev run : Outcome (List (List ℕ) × List Sent)
run =
    client_task toy_frames toy_extend toy_updates toy_prepares toy_slice keyed_cipher (λ o. true)
      (λ o. true) firmware (target ∷ []) update_key

-- The client's packets: one that prepares, one with 27 bytes and one with 3.
abbrev preparing : List ℕ
preparing =
    0 ∷ 0 ∷ 8 ∷ 0 ∷ 31 ∷ 9 ∷ 0 ∷ 0 ∷ 0 ∷ 1 ∷ 2 ∷ 3 ∷ 0 ∷ 0 ∷ 4 ∷ 0 ∷ 0 ∷ 0 ∷ 30 ∷ 0 ∷ replicate 16 5
    ++ replicate 6 0

abbrev first : Sent
first = record {
  update = record { byte_offset = 0; bytes = replicate 27 7 };
  datagram = 0 ∷ 1 ∷ 8 ∷ 0 ∷ 36 ∷ 5 ∷ 0 ∷ 0 ∷ 0 ∷ 0 ∷ 0 ∷ 0 ∷ 0 ∷ 27 ∷ replicate 27 7 ++ 0 ∷ [];
  frame_counter = 1;
  delay = server_request_receive_time;
}

abbrev second : Sent
second = record {
  update = record { byte_offset = 27; bytes = replicate 3 7 };
  datagram = 0 ∷ 2 ∷ 8 ∷ 0 ∷ 12 ∷ 5 ∷ 0 ∷ 0 ∷ 0 ∷ 0 ∷ 0 ∷ 0 ∷ 27 ∷ 3 ∷ replicate 27 7 ++ 0 ∷ [];
  frame_counter = 2;
  delay = update_processing_time;
}

-- `client_task` at these stand-ins, by evaluation.
run_returns : run ≡ returns (preparing ∷ [], first ∷ second ∷ [])
unfolding client_task prepare_servers_for_update create_prepare_update_request to_datagram
    update_servers update_loop create_update_request to_packed
run_returns = refl

abbrev garbage : List ℕ
garbage = 0 ∷ 7 ∷ []

-- What comes: an update is begun, its first packet comes again and ends it, and it is begun anew.
abbrev received : List (List ℕ)
received =
    preparing ∷ first.datagram ∷ first.datagram ∷ garbage ∷ preparing ∷ first.datagram
    ∷ second.datagram ∷ second.datagram ∷ []

reads_prepare : List ℕ → Option PrepareForUpdate
reads_prepare =
    process_client_prepare_for_update_request toy_frames toy_extend toy_updates toy_prepares
      (keyed_cipher target.network_key)

reads_update : List ℕ → Option Update
reads_update =
    process_client_update_request toy_frames toy_extend toy_updates toy_prepares
      (keyed_cipher update_key)

only : {A : Type 0} (o : Option A) (x y : A) → o ≡ some x → o ≡ some y → y ≡ x
only o x y e e' = ground arith

never : {A P : Type 0} (o : Option A) (y : A) → o ≡ none → o ≡ some y → P
never o y e e' = absurd (ground arith)

prepare_only :
    (y : PrepareForUpdate) → reads_prepare preparing ≡ some y → y ≡ prepare_for_update update_key 30
unfolding reads_prepare process_client_prepare_for_update_request from_datagram parse
prepare_only y = only (reads_prepare preparing) (prepare_for_update update_key 30) y refl

first_only : (y : Update) → reads_update first.datagram ≡ some y → first.update ≡ y
unfolding reads_update process_client_update_request from_datagram parse
first_only y e = sym (only (reads_update first.datagram) first.update y refl e)

second_only : (y : Update) → reads_update second.datagram ≡ some y → second.update ≡ y
unfolding reads_update process_client_update_request from_datagram parse
second_only y e = sym (only (reads_update second.datagram) second.update y refl e)

authentic_prepares :
    All
      (λ d.
        (p : PrepareForUpdate) → reads_prepare d ≡ some p → p ≡ prepare_for_update update_key 30)
      received
unfolding reads_prepare process_client_prepare_for_update_request from_datagram parse
authentic_prepares = (
  prepare_only,
  (
    λ p. never (reads_prepare first.datagram) p refl,
    (
      λ p. never (reads_prepare first.datagram) p refl,
      (
        λ p. never (reads_prepare garbage) p refl,
        (
          prepare_only,
          (
            λ p. never (reads_prepare first.datagram) p refl,
            (
              λ p. never (reads_prepare second.datagram) p refl,
              (λ p. never (reads_prepare second.datagram) p refl, tt),
            ),
          ),
        ),
      ),
    ),
  ),
)

authentic_updates :
    All
      (λ d.
        (u : Update) → reads_update d ≡ some u → AnyOf (λ s. s.update ≡ u) (first ∷ second ∷ []))
      received
unfolding reads_update process_client_update_request from_datagram parse
authentic_updates = (
  λ u. never (reads_update preparing) u refl,
  (
    λ u e. inl (first_only u e),
    (
      λ u e. inl (first_only u e),
      (
        λ u. never (reads_update garbage) u refl,
        (
          λ u. never (reads_update preparing) u refl,
          (
            λ u e. inl (first_only u e),
            (λ u e. inr (inl (second_only u e)), (λ u e. inr (inl (second_only u e)), tt)),
          ),
        ),
      ),
    ),
  ),
)

server_watch-client_task_example :
    (w : Watch) × (server_watch toy_frames toy_extend toy_updates toy_prepares keyed_cipher target
        received
      ≡ returns w)
    × (server_task toy_frames toy_extend toy_updates toy_prepares keyed_cipher target received
        ≡ returns w.active)
    × All (λ image. image ≡ firmware) w.finished
    × IsBeginning (keyed_cipher update_key) firmware w.active w.buffer
unfolding reads_prepare reads_update
server_watch-client_task_example =
    server_watch-client_task toy_frames-IsCodec toy_extend-IsExtend toy_updates-IsCodec
      update_bytes-IsUpdateBytes toy_prepares-IsCodec prepare_bytes-IsPrepareBytes
      toy_slice-IsFromSlice keyed_cipher keyed_cipher-IsAead (λ o. true) (λ o. refl) firmware
      update_key (target ∷ []) target (preparing ∷ []) received (first ∷ second ∷ []) (omega arith)
      (omega arith) (omega arith) refl run_returns authentic_prepares authentic_updates

finished_of : Outcome Watch → List (List ℕ)
finished_of (returns w) = w.finished
finished_of _ = []

-- Such a run finishes one image.
installed_once :
    finished_of
      (server_watch toy_frames toy_extend toy_updates toy_prepares keyed_cipher target received)
    ≡ firmware ∷ []
unfolding finished_of server_watch watch_packets watch_packet active_update from_datagram parse
    process_client_update_request process_client_prepare_for_update_request process_active_update
    activate_update_if_new_version version_cmp from_str split_once parse_u8 after_once
    receive_packet
installed_once = refl
