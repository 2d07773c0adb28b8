-- ===== src/Data.antt =====
-- The crate flip-flop-data, data/src.
pub mod Crates
pub mod Header
pub mod Frame
pub mod Discovery
pub mod Update
