-- ===== src/Data/Update/Prepare.antt =====
-- data/examples/update/main.rs: the client prepares the servers for an update, and its task.
use flip_flop_protocol.Common.{
  ℕ, ◌+◌, ◌*◌, ◌^◌, Bool, false, none, List, [], ◌∷◌, length, replicate, if◌then◌else◌,
}
use flip_flop_protocol.Common.Words.{u8, u16, u32}
use flip_flop_protocol.Common.Outcome.{Outcome, returns, unwrap, ◌>>=◌}
use flip_flop_protocol.Data.Crates.{Cipher, Extend, Codec}
use flip_flop_protocol.Data.Frame.{DataFrame}
use flip_flop_protocol.Data.Frame.Encode.{to_datagram}
use flip_flop_protocol.Data.Discovery.{min_payload_size, min_packet_size}
use flip_flop_protocol.Data.Update.{Update, PrepareForUpdate}
use flip_flop_protocol.Data.Update.Client.{request_header, FromSlice, Sent, update_servers}

abbrev pub my_app_port : ℕ
my_app_port = 2

-- `(u8, [u8; 16])`: a server's address and its network key.
pub record ServerKey : Type 0 where
  pub address : ℕ
  pub network_key : List ℕ

-- The request that the client broadcasts to every server.
abbrev pub prepare_for_update : List ℕ → ℕ → PrepareForUpdate
prepare_for_update update_key update_len = record {
  version = record { major = 1; minor = 2; patch = 3; pre = none };
  server_ports = u8 (1 * 2 ^ my_app_port);
  update_key = record { key = update_key };
  update_byte_len = u32 update_len;
  signed = false;
}

-- The packets that the channel took, the counter, and the buffer behind them.
pub record Prepared : Type 0 where
  pub datagrams : List (List ℕ)
  pub frame_counter : ℕ
  pub datagram_buf : List ℕ

module _ {E : Type 0} (frames : Codec E DataFrame) (extend : Extend)
    (prepares : Codec E PrepareForUpdate) where
  unfoldable pub create_prepare_update_request :
      Cipher → PrepareForUpdate → ℕ → List ℕ → Outcome (List ℕ)
  create_prepare_update_request network_cipher request frame_counter datagram_buf = do
    payload ← unwrap (prepares.to_vec request min_payload_size)
    to_datagram frames extend network_cipher (request_header frame_counter) payload datagram_buf

  -- `accepts` says whether the channel takes the packet for a server.
  module _ (new_cipher : List ℕ → Cipher) (accepts : ℕ → Bool) (update_key : List ℕ)
      (update_len : ℕ) where
    unfoldable pub prepare_servers_for_update : List ServerKey → ℕ → List ℕ → Outcome Prepared
    prepare_servers_for_update [] frame_counter datagram_buf =
        returns
          (record { datagrams = []; frame_counter = frame_counter; datagram_buf = datagram_buf })
    prepare_servers_for_update (server ∷ servers) frame_counter datagram_buf =
        create_prepare_update_request (new_cipher server.network_key)
          (prepare_for_update update_key update_len) frame_counter datagram_buf
        >>= λ datagram.
            let sent = accepts server.address in
            prepare_servers_for_update servers
              (if sent then u16 (frame_counter + 1) else frame_counter) datagram
            >>= λ rest. returns (record rest {
              datagrams = if sent then datagram ∷ rest.datagrams else rest.datagrams;
            })

-- The whole task: the packets that prepare, and those of the update. `update_key` is what the
-- generator fills.
module _ {E : Type 0} (frames : Codec E DataFrame) (extend : Extend) (updates : Codec E Update)
    (prepares : Codec E PrepareForUpdate) (from_slice : FromSlice) (new_cipher : List ℕ → Cipher)
    (accepts_prepare accepts : ℕ → Bool) where
  unfoldable pub client_task :
      List ℕ → List ServerKey → List ℕ → Outcome (List (List ℕ) × List Sent)
  client_task bytes servers update_key = do
    let update_len = length bytes
    prepared ←
        prepare_servers_for_update frames extend prepares new_cipher accepts_prepare update_key
          update_len servers 0 (replicate min_packet_size 0)
    sent ←
        update_servers frames extend updates from_slice new_cipher accepts bytes update_key
          update_len prepared.frame_counter prepared.datagram_buf
    returns (prepared.datagrams, sent)
