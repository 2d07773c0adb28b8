-- ===== src/App/Server.antt =====
-- app/examples/server/main.rs: the log of events, the reply to a request, and the store of an event.
pub mod Log
pub mod Select
pub mod Invariant
pub mod Rules
pub mod OffsetRules
pub mod Offsets
use flip_flop_protocol.Common.{
  ℕ, ◌+◌, ◌≡◌, Bool, true, false, not, ◌&&◌, Option, none, some, List, [], ◌∷◌, leb, ◌==◌,
  if◌then◌else◌, take, get_elem?,
}
use flip_flop_protocol.Common.Words.{u32}
use flip_flop_protocol.App.{
  CommandRequest, NoEe, EventOf, logged, recovery, EventReply, event_reply,
}

-- app/examples/common/lib.rs
pub data Command : Type 0 where
  some_command : Command

pub data Event : Type 0 where
  some_event : Event

-- `(Event, u32, Instant)`
pub record Entry (T : Type 0) : Type 0 where
  pub event : Event
  pub offset : ℕ
  pub instant : T

-- The crate circular_queue, at queues of one capacity. `iter` goes from the newest element to the
-- oldest, and a push to a full queue overwrites the oldest.
pub record CircularQueue (Q A : Type 0) : Type 0 where
  pub with_capacity : ℕ → Q
  pub push : A → Q → Q
  pub clear : Q → Q
  pub iter : Q → List A

pub record IsCircularQueue {Q A : Type 0} (capacity : ℕ) (queue : CircularQueue Q A) : Type 0 where
  pub iter-with_capacity : queue.iter (queue.with_capacity capacity) ≡ []
  pub iter-clear : (q : Q) → queue.iter (queue.clear q) ≡ []
  pub iter-push : (a : A) (q : Q) → queue.iter (queue.push a q) ≡ take capacity (a ∷ queue.iter q)

abbrev pub max_events : ℕ
max_events = 10

pub record Server (Q : Type 0) : Type 0 where
  pub events : Q
  pub start : Option ℕ
  pub end : Option ℕ
  pub event_offset : ℕ

-- `==` and `<=` of `Option<u32>`
abbrev pub eq_option : Option ℕ → Option ℕ → Bool
eq_option none none = true
eq_option none (some b) = false
eq_option (some a) none = false
eq_option (some a) (some b) = a == b

abbrev pub le_option : Option ℕ → Option ℕ → Bool
le_option none b = true
le_option (some a) none = false
le_option (some a) (some b) = leb a b

-- `wrapping_add(1)`
abbrev pub successor : ℕ → ℕ
successor o = u32 (o + 1)

abbrev pub map_successor : Option ℕ → Option ℕ
map_successor none = none
map_successor (some o) = some (successor o)

-- `Iterator::skip_while` and `Iterator::last`
abbrev pub skip_while : {A : Type 0} → (A → Bool) → List A → List A
skip_while p [] = []
skip_while p (x ∷ xs) = let rest = skip_while p xs in if p x then rest else x ∷ xs

abbrev pub last : {A : Type 0} → List A → Option A
last [] = none
last (x ∷ []) = some x
last (x ∷ y ∷ xs) = last (y ∷ xs)

abbrev pub in_range : Option ℕ → ℕ → ℕ → Bool
in_range none start end = true
in_range (some o) start end = le_option (some start) (some o) && le_option (some o) (some end)

module _ {T : Type 0} where
  abbrev pub has_offset : Option (Entry T) → Option ℕ → Bool
  has_offset none o = false
  has_offset (some e) o = eq_option (some e.offset) o

  -- The match on the next two events.
  unfoldable pub choose :
      Option ℕ
      → Option ℕ
      → Option (Entry T)
      → Option (Entry T)
      → Option (Entry T)
      → Option (Entry T)
  choose next_event_offset last_event_offset next_e last_e oldest =
      if has_offset next_e next_event_offset
      then next_e
      else if has_offset last_e last_event_offset
      then none
      else if has_offset next_e last_event_offset
      then none
      else oldest

  -- The search for the event to reply, in the events from the newest to the oldest.
  unfoldable pub find_event : Option ℕ → List (Entry T) → Option (Entry T)
  unfolding choose
  find_event last_event_offset events =
      let next_event_offset = map_successor last_event_offset in
      let events_iter =
        skip_while
          (λ e.
            not (eq_option (some e.offset) next_event_offset)
            && not (eq_option (some e.offset) last_event_offset))
          events in
      choose next_event_offset last_event_offset (get_elem? events_iter 0) (get_elem? events_iter 1)
        (last events)

  abbrev pub log_entry : Option (Entry T) → Option (EventOf Event NoEe × T)
  log_entry none = none
  log_entry (some e) = some (logged e.event e.offset, e.instant)

  module _ {Q : Type 0} (queue : CircularQueue Q (Entry T)) where
    -- `maybe_event`, at the time `now`
    unfoldable pub select_event :
        Server Q → CommandRequest Command → T → Option (EventOf Event NoEe × T)
    unfolding find_event
    select_event s request now = elim s.start [
      | none ↦ none
      | some start ↦ elim s.end [
        | none ↦ none
        | some end ↦
            if in_range request.last_event_offset start end
            then log_entry (find_event request.last_event_offset (queue.iter s.events))
            else some (recovery start end, now)
      ]
    ]

    -- `duration_since` reads the clock.
    unfoldable pub reply :
        (T → ℕ) → Server Q → CommandRequest Command → T → EventReply (EventOf Event NoEe)
    unfolding select_event
    reply duration_since s request now = event_reply (select_event s request now) duration_since

    unfoldable pub new_server : ℕ → Server Q
    new_server drawn = record {
      events = queue.with_capacity max_events;
      start = none;
      end = none;
      event_offset = drawn;
    }

    unfoldable pub reset_events : Server Q → ℕ → Server Q
    reset_events s drawn = record {
      events = queue.clear s.events;
      start = some drawn;
      end = some drawn;
      event_offset = drawn;
    }

    unfoldable pub store_event : Server Q → T → Server Q
    store_event s event_instant = record {
      events =
          queue.push
            (record { event = some_event; offset = s.event_offset; instant = event_instant })
            s.events;
      start = elim s.start [ none ↦ some s.event_offset | some start ↦ some start ];
      end = some s.event_offset;
      event_offset = successor s.event_offset;
    }

    -- An event arrives: `draw` is the number from `0..40`, `drawn` that from `0..MAX_EVENTS`.
    unfoldable pub receive_event : Server Q → T → ℕ → ℕ → Server Q
    unfolding reset_events store_event
    receive_event s event_instant draw drawn =
        if draw == 0 then reset_events s drawn else store_event s event_instant
