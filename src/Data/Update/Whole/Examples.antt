-- ===== src/Data/Update/Whole/Examples.antt =====
-- The theorems on a whole update at concrete inputs, with the stand-ins of Data/Frame/Toy and
-- Data/Update/Toy.
use flip_flop_protocol.Common.{
  ℕ, ◌≡◌, refl, arith, true, none, List, [], ◌∷◌, ◌++◌, replicate, take,
}
use flip_flop_protocol.Common.Outcome.{returns}
use flip_flop_protocol.Data.Header.{parse}
use flip_flop_protocol.Data.Frame.{new_nonce}
use flip_flop_protocol.Data.Frame.Decode.{from_datagram}
use flip_flop_protocol.Data.Frame.Toy.{
  toy_frames, toy_frames-IsCodec, toy_extend, toy_extend-IsExtend, toy_cipher, toy_cipher-IsAead,
}
use flip_flop_protocol.Data.Update.{Version}
use flip_flop_protocol.Data.Update.Order.{version_cmp}
use flip_flop_protocol.Data.Update.Client.{Sent}
use flip_flop_protocol.Data.Update.Prepare.{ServerKey, prepare_for_update, client_task}
use flip_flop_protocol.Data.Update.Server.{
  UpdateInfo, process_client_prepare_for_update_request, activate_update_if_new_version,
  active_update, receive_packets,
}
use flip_flop_protocol.Data.Update.Session.{datagrams_of, sent_bytes, progress}
use flip_flop_protocol.Data.Update.Origin.{AnyOf, Prepares, receive_packets-Prepares}
use flip_flop_protocol.Data.Update.Whole.{server_task, update_info_of, server_task-client_task}
use flip_flop_protocol.Data.Update.Toy.{
  toy_slice, toy_slice-IsFromSlice, toy_updates, toy_updates-IsCodec, update_bytes-IsUpdateBytes,
  toy_prepares, toy_prepares-IsCodec, prepare_bytes, prepare_bytes-IsPrepareBytes,
}

abbrev firmware : List ℕ
firmware = replicate 60 7

abbrev update_key : List ℕ
update_key = replicate 16 5

abbrev target : ServerKey
target = record { address = 1; network_key = replicate 16 9 }

server_task-client_task_example :
    (prepared : List (List ℕ)) × (ss : List Sent) × (client_task toy_frames toy_extend toy_updates
        toy_prepares toy_slice
        (λ key. toy_cipher)
        (λ o. true)
        (λ o. true)
        firmware
        (target ∷ [])
        update_key
      ≡ returns (prepared, ss))
    × (sent_bytes ss ≡ 60)
    × (server_task toy_frames toy_extend toy_updates toy_prepares
          (λ key. toy_cipher)
          target
          (prepared ++ datagrams_of (take 2 ss))
        ≡ returns
            (progress (update_info_of (λ key. toy_cipher) update_key 60) (sent_bytes (take 2 ss))))
server_task-client_task_example =
    server_task-client_task toy_frames-IsCodec toy_extend-IsExtend toy_updates-IsCodec
      update_bytes-IsUpdateBytes toy_prepares-IsCodec prepare_bytes-IsPrepareBytes
      toy_slice-IsFromSlice (λ key. toy_cipher) (λ key. toy_cipher-IsAead) (λ o. true) (λ o. refl)
      firmware update_key target 2 (omega arith) (omega arith) (omega arith) (omega arith) refl

-- The packet that prepares the update, behind its header.
abbrev prepare_packet : List ℕ
prepare_packet =
    (0 ∷ 0 ∷ 8 ∷ 0 ∷ 31 ∷ []) ++ prepare_bytes (prepare_for_update update_key 60) ++ replicate 10 0

abbrev current : Version
current = record { major = 1; minor = 2; patch = 0; pre = none }

abbrev firmware_info : UpdateInfo
firmware_info = record { cipher = toy_cipher; byte_len = 60; next_byte_offset = 0 }

receive_packets-Prepares_example :
    AnyOf
      (λ d.
        Prepares toy_frames toy_extend toy_updates toy_prepares
          (λ key. toy_cipher)
          toy_cipher
          current
          d
          firmware_info)
      (prepare_packet ∷ [])
unfolding receive_packets active_update process_client_prepare_for_update_request from_datagram
    parse new_nonce activate_update_if_new_version version_cmp
receive_packets-Prepares_example =
    receive_packets-Prepares toy_frames toy_extend toy_updates toy_prepares (λ key. toy_cipher)
      toy_cipher current (prepare_packet ∷ []) firmware_info refl
