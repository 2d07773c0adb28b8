-- ===== src/Data/Update/Broadcast/Examples.antt =====
-- An update of 30 bytes that the client's task brings to two servers with keys of their own.
use flip_flop_protocol.Common.{
  ℕ, ◌≡◌, refl, arith, true, Option, none, some, List, [], ◌∷◌, ◌++◌, All, inl, inr, replicate,
}
use flip_flop_protocol.Common.Outcome.{Outcome, returns}
use flip_flop_protocol.Data.Header.{parse, to_packed}
use flip_flop_protocol.Data.Frame.Encode.{to_datagram}
use flip_flop_protocol.Data.Frame.Decode.{from_datagram}
use flip_flop_protocol.Data.Frame.Toy.{
  toy_frames, toy_frames-IsCodec, toy_extend, toy_extend-IsExtend, keyed_cipher,
  keyed_cipher-IsAead,
}
use flip_flop_protocol.Data.Update.{PrepareForUpdate}
use flip_flop_protocol.Data.Update.Client.{Sent, update_servers, update_loop, create_update_request}
use flip_flop_protocol.Data.Update.Prepare.{
  ServerKey, prepare_for_update, client_task, prepare_servers_for_update,
  create_prepare_update_request,
}
use flip_flop_protocol.Data.Update.Server.{
  process_client_update_request, process_client_prepare_for_update_request,
}
use flip_flop_protocol.Data.Update.Session.{datagrams_of}
use flip_flop_protocol.Data.Update.Whole.{server_task}
use flip_flop_protocol.Data.Update.Installed.{server_watch}
use flip_flop_protocol.Data.Update.Broadcast.{preparing_of, server_watch-broadcast}
use flip_flop_protocol.Data.Update.Toy.{
  toy_slice, toy_slice-IsFromSlice, toy_updates, toy_updates-IsCodec, update_bytes-IsUpdateBytes,
  toy_prepares, toy_prepares-IsCodec, prepare_bytes, prepare_bytes-IsPrepareBytes,
}

abbrev firmware : List ℕ
firmware = replicate 30 7

abbrev update_key : List ℕ
update_key = replicate 16 5

abbrev first_server : ServerKey
first_server = record { address = 1; network_key = replicate 16 9 }

abbrev second_server : ServerKey
second_server = record { address = 2; network_key = replicate 16 8 }

abbrev run : Outcome (List (List ℕ) × List Sent)
run =
    client_task toy_frames toy_extend toy_updates toy_prepares toy_slice keyed_cipher (λ o. true)
      (λ o. true) firmware (first_server ∷ second_server ∷ []) update_key

-- The packets that prepare the servers: header, length, tag and message.
abbrev to_first : List ℕ
to_first =
    (0 ∷ 0 ∷ 8 ∷ 0 ∷ 31 ∷ 9 ∷ 0 ∷ 0 ∷ 0 ∷ [])
    ++ prepare_bytes (prepare_for_update update_key 30)
    ++ replicate 6 0

abbrev to_second : List ℕ
to_second =
    (0 ∷ 1 ∷ 8 ∷ 0 ∷ 31 ∷ 8 ∷ 0 ∷ 0 ∷ 0 ∷ [])
    ++ prepare_bytes (prepare_for_update update_key 30)
    ++ replicate 6 0

run-preparing : preparing_of run ≡ to_first ∷ to_second ∷ []
unfolding client_task prepare_servers_for_update create_prepare_update_request to_datagram
    update_servers update_loop create_update_request to_packed
run-preparing = refl

unread :
    All
      (λ d.
        process_client_update_request toy_frames toy_extend toy_updates toy_prepares
          (keyed_cipher update_key)
          d
        ≡ none)
      (to_first ∷ to_second ∷ [])
unfolding process_client_update_request from_datagram parse
unread = (refl, (refl, tt))

only : {A : Type 0} (o : Option A) (x y : A) → o ≡ some x → o ≡ some y → y ≡ x
only o x y e e' = ground arith

-- The second server reads the packet that is for it, and not the one that is for the first.
own :
    All
      (λ d.
        (p : PrepareForUpdate)
        → process_client_prepare_for_update_request toy_frames toy_extend toy_updates toy_prepares
            (keyed_cipher second_server.network_key)
            d
          ≡ some p
        → p ≡ prepare_for_update update_key 30)
      (to_first ∷ to_second ∷ [])
unfolding process_client_prepare_for_update_request from_datagram parse
own = (
  λ p e. absurd (ground arith),
  (
    λ p. only (some (prepare_for_update update_key 30)) (prepare_for_update update_key 30) p refl,
    tt,
  ),
)

server_watch-broadcast_example :
    (preparing : List (List ℕ)) × (ss : List Sent) × (run ≡ returns (preparing, ss))
    × (server_watch toy_frames toy_extend toy_updates toy_prepares keyed_cipher second_server
          (preparing ++ datagrams_of ss)
        ≡ returns (record { active = none; buffer = []; finished = firmware ∷ [] }))
    × (server_task toy_frames toy_extend toy_updates toy_prepares keyed_cipher second_server
          (preparing ++ datagrams_of ss)
        ≡ returns none)
server_watch-broadcast_example =
    server_watch-broadcast toy_frames-IsCodec toy_extend-IsExtend toy_updates-IsCodec
      update_bytes-IsUpdateBytes toy_prepares-IsCodec prepare_bytes-IsPrepareBytes
      toy_slice-IsFromSlice keyed_cipher keyed_cipher-IsAead (λ o. true) (λ o. refl) firmware
      update_key (first_server ∷ second_server ∷ []) second_server (omega arith) (omega arith)
      (omega arith) (omega arith) refl (inr (inl refl)) (rw run-preparing unread)
      (rw run-preparing own)
