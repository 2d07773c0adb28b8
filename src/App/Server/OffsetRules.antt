-- ===== src/App/Server/OffsetRules.antt =====
-- app/examples/server/main.rs: the reply, against the rules of offset-rules.md.
mod Examples
use flip_flop_protocol.Common.{ℕ, Bool, true, false, ◌&&◌, ◌||◌, Option, none, some, List, [], leb}
use flip_flop_protocol.App.{NoEe, EventOf, logged, recovery}
use flip_flop_protocol.App.Server.{Entry, Server, Event, successor}
use flip_flop_protocol.App.Server.Log.{lookup}

-- The code's range test, which the rules do not have.
abbrev pub between : ℕ → ℕ → ℕ → Bool
between start end n = leb start n && leb n end

module _ {T : Type 0} where
  -- The table of offset-rules.md, from its conditions alone: event `s(n)` is present in history;
  -- event `n` is and event `s(n)` is not; otherwise.
  unfoldable pub offset_rules : ℕ → ℕ → List (Entry T) → ℕ → T → Option (EventOf Event NoEe × T)
  offset_rules start end es n now = elim (lookup (successor n) es) [
    | some e ↦ some (logged e.event e.offset, e.instant)
    | none ↦ elim (lookup n es) [ some _ ↦ none | none ↦ some (recovery start end, now) ]
  ]

  abbrev is_in : Option (Entry T) → Bool
  is_in none = false
  is_in (some e) = true

  -- The event at the offset or the one behind it is in history.
  unfoldable pub present : ℕ → List (Entry T) → Bool
  present n es = is_in (lookup (successor n) es) || is_in (lookup n es)
