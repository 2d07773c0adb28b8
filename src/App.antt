-- ===== src/App.antt =====
-- app/src/lib.rs: the messages of the application layer and their last field, which is left out
-- where there is none. serde's `Serialize` and `Deserialize` of a field's type are parameters.
use flip_flop_protocol.Common.{ℕ, ◌≡◌, Option, none, some, List, [], ◌++◌}
pub mod Messages
pub mod Server
pub mod Client
pub mod Exchange
pub mod Wire
pub mod Toy
mod UnitTests
mod Examples
use flip_flop_protocol.Common.Result.{Result, ok, err}

pub record CommandRequest (C : Type 0) : Type 0 where
  pub last_event_offset : Option ℕ
  pub command : Option C

-- `NoEE`
abbrev pub NoEe : Type 0
NoEe = Unit {0}

pub data EventOf (E EE : Type 0) : Type 0 where
  logged : E → ℕ → EventOf E EE
  ephemeral : EE → EventOf E EE
  recovery : ℕ → ℕ → EventOf E EE

pub record EventReply (E : Type 0) : Type 0 where
  pub delta_ticks : ℕ
  pub event : Option E

unfoldable pub event_reply : {E T : Type 0} → Option (E × T) → (T → ℕ) → EventReply E
event_reply none duration_since = record { delta_ticks = 0; event = none }
event_reply (some (e, t)) duration_since = record { delta_ticks = duration_since t; event = some e }

-- A type's encoding in a format of bytes: what is read leaves the bytes behind the value.
pub record Serde (X T : Type 0) : Type 0 where
  pub serialize : T → Result X (List ℕ)
  pub deserialize : List ℕ → Result X (T × List ℕ)

pub record IsSerde {X T : Type 0} (serde : Serde X T) (bytes : T → List ℕ) : Type 0 where
  pub serialize-bytes : (t : T) → serde.serialize t ≡ ok (bytes t)
  pub deserialize-append :
      (t : T) (rest : List ℕ) → serde.deserialize (bytes t ++ rest) ≡ ok (t, rest)

-- `serialize_unit` of the format is a parameter too.
unfoldable pub serialise_last_field :
    {X T : Type 0} → Serde X T → Result X (List ℕ) → Option T → Result X (List ℕ)
serialise_last_field serde serialize_unit (some o) = serde.serialize o
serialise_last_field serde serialize_unit none = serialize_unit

-- `T::deserialize(d).map_or_else(|_| Ok(None), |v| Ok(Some(v)))`
unfoldable pub deserialise_last_field : {X T : Type 0} → Serde X T → List ℕ → Result X (Option T)
deserialise_last_field serde d = elim (serde.deserialize d) [
  | err _ ↦ ok none
  | ok (v, rest) ↦ ok (some v)
]
