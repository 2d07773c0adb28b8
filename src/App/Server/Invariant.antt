-- ===== src/App/Server/Invariant.antt =====
-- app/examples/server/main.rs: the server's states, and what holds in each of them.
use flip_flop_protocol.Common.{
  ℕ, zero, suc, ◌^◌, ◌≤◌, ◌<◌, ◌≡◌, refl, arith, Option, none, some, List, [], ◌∷◌, ◌==◌, length,
  Bool-cases, inl, inr, take, length-take,
}
use flip_flop_protocol.App.Server.{
  Entry, Server, some_event, CircularQueue, IsCircularQueue, successor, max_events, new_server,
  receive_event, reset_events, store_event,
}
use flip_flop_protocol.App.Server.Log.{IsLog}

module _ {T : Type 0} where
  take-IsLog : (k next : ℕ) (es : List (Entry T)) → IsLog next es → IsLog next (take k es)
  take-IsLog zero next es h = tt
  take-IsLog (suc k) next [] h = tt
  take-IsLog (suc k) next (e ∷ es) (he, hs, h) = (he, hs, take-IsLog k e.offset es h)

  -- Nothing is logged before the first event, and `end` is the newest offset. Behind a reset the log
  -- is empty, and `start` and `end` are the offset of the event to come.
  abbrev pub IsBounds : Option ℕ → Option ℕ → ℕ → List (Entry T) → Type 0
  IsBounds none none event_offset es = es ≡ []
  IsBounds none (some end) event_offset es = ⊥
  IsBounds (some start) none event_offset es = ⊥
  IsBounds (some start) (some end) event_offset [] = (start ≡ end) × (end ≡ event_offset)
  IsBounds (some start) (some end) event_offset (e ∷ es) = end ≡ e.offset

  push-IsBounds :
      (start : Option ℕ) (e : Entry T) (es : List (Entry T))
      → IsBounds
          (elim start [ none ↦ some e.offset | some start' ↦ some start' ])
          (some e.offset)
          (successor e.offset)
          (e ∷ es)
  push-IsBounds none e es = refl
  push-IsBounds (some start) e es = refl

  module _ {Q : Type 0} (queue : CircularQueue Q (Entry T)) where
    pub record IsServer (s : Server Q) : Type 0 where
      pub offset_u32 : s.event_offset < 2 ^ 32
      pub log : IsLog s.event_offset (queue.iter s.events)
      pub short : length (queue.iter s.events) ≤ max_events
      pub bounds : IsBounds s.start s.end s.event_offset (queue.iter s.events)

    pub data Reachable : Server Q → Type 0 where
      started : (drawn : ℕ) → drawn < max_events → Reachable (new_server queue drawn)
      received :
          {s : Server Q} (event_instant : T) (draw drawn : ℕ)
          → drawn < max_events
          → Reachable s
          → Reachable (receive_event queue s event_instant draw drawn)

    module _ (laws : IsCircularQueue max_events queue) where
      new_server-IsServer : (drawn : ℕ) → drawn < max_events → IsServer (new_server queue drawn)
      unfolding new_server
      new_server-IsServer drawn h = record {
        offset_u32 = omega arith;
        log = rw laws.iter-with_capacity tt;
        short = rw laws.iter-with_capacity (omega arith);
        bounds = laws.iter-with_capacity;
      }

      reset_events-IsServer :
          (s : Server Q) (drawn : ℕ) → drawn < max_events → IsServer (reset_events queue s drawn)
      unfolding reset_events
      reset_events-IsServer s drawn h = record {
        offset_u32 = omega arith;
        log = rw (laws.iter-clear s.events) tt;
        short = rw (laws.iter-clear s.events) (omega arith);
        bounds = rw (laws.iter-clear s.events) (refl, refl);
      }

      store_event-IsServer :
          (s : Server Q) (event_instant : T)
          → IsServer s
          → IsServer (store_event queue s event_instant)
      unfolding store_event
      store_event-IsServer s event_instant ih =
          let pushed : Entry T = record {
            event = some_event;
            offset = s.event_offset;
            instant = event_instant;
          } in
          let older = take 9 (queue.iter s.events) in
          let iter-pushed = laws.iter-push pushed s.events in
          let older-IsLog = take-IsLog 9 s.event_offset (queue.iter s.events) ih.log in
          record {
            offset_u32 = omega arith;
            log = rw iter-pushed (ih.offset_u32, refl, older-IsLog);
            short = rw iter-pushed (omega (arith, length-take 9 (queue.iter s.events)));
            bounds = rw iter-pushed (push-IsBounds s.start pushed older);
          }

      receive_event-IsServer :
          (s : Server Q) (event_instant : T) (draw drawn : ℕ)
          → drawn < max_events
          → IsServer s
          → IsServer (receive_event queue s event_instant draw drawn)
      unfolding receive_event
      receive_event-IsServer s event_instant draw drawn h ih = elim (Bool-cases (draw == 0)) [
        | inl t ↦ rw t (reset_events-IsServer s drawn h)
        | inr t ↦ rw t (store_event-IsServer s event_instant ih)
      ]

      -- In every state that the server reaches, at most ten events are in the log, their offsets
      -- are consecutive modulo 2 ^ 32 up to the one before `event_offset`, `start` and `end` are
      -- set or unset together, and `end` is the newest offset of a log that is not empty.
      pub Reachable-IsServer : (s : Server Q) → Reachable s → IsServer s
      Reachable-IsServer s (started drawn h) = new_server-IsServer drawn h
      Reachable-IsServer s (received event_instant draw drawn h r) =
          receive_event-IsServer _ event_instant draw drawn h (Reachable-IsServer _ r)
