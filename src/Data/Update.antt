-- ===== src/Data/Update.antt =====
-- data/src/update.rs: versions and the messages of a software update. Order has the comparison of
-- versions, Text their printing and parsing.
pub mod Order
pub mod Text
pub mod Client
pub mod Chunks
pub mod Server
pub mod Packets
pub mod Prepare
pub mod Prepared
pub mod Transfer
pub mod Session
pub mod Origin
pub mod Watch
pub mod Task
pub mod Whole
pub mod Installed
pub mod Broadcast
pub mod Delivery
mod Toy
mod UnitTests
mod Examples
use flip_flop_protocol.Common.{ℕ, ◌+◌, ◌^◌, ◌<◌, Bool, Option, none, some, List}

-- `[u8; 16]`
pub record UpdateKey : Type 0 where
  pub key : List ℕ

pub data PreRelease : Type 0 where
  alpha : ℕ → PreRelease
  beta : ℕ → PreRelease

pub record Version : Type 0 where
  pub major : ℕ
  pub minor : ℕ
  pub patch : ℕ
  pub pre : Option PreRelease

abbrev pub ident : PreRelease → ℕ
ident (alpha n) = n
ident (beta n) = n

abbrev pub pre_ident : Option PreRelease → ℕ
pre_ident none = 0
pre_ident (some p) = ident p

-- The widths of the fields' Rust types.
pub record IsVersion (v : Version) : Type 0 where
  pub major_u8 : v.major < 2 ^ 8
  pub minor_u8 : v.minor < 2 ^ 8
  pub patch_u8 : v.patch < 2 ^ 8
  pub pre_u8 : pre_ident v.pre < 2 ^ 8

pub record PrepareForUpdate : Type 0 where
  pub version : Version
  pub server_ports : ℕ
  pub update_key : UpdateKey
  pub update_byte_len : ℕ
  pub signed : Bool

-- `Update<N>`
pub record Update : Type 0 where
  pub byte_offset : ℕ
  pub bytes : List ℕ

abbrev pub update_bytes_overhead : ℕ
update_bytes_overhead = 4 + 1
