-- ===== src/App/Server/Rules.antt =====
-- app/examples/server/main.rs: the reply in each state, by lookups in the
-- log. Where it departs from offset-rules.md is said in App/Server/OffsetRules.
use flip_flop_protocol.Common.{
  ℕ, ◌≡◌, ◌≢◌, refl, arith, ◌&&◌, Option, none, some, List, leb, if◌then◌else◌, Option-cases, inl,
  inr,
}
use flip_flop_protocol.App.{CommandRequest, NoEe, EventOf, logged, recovery}
use flip_flop_protocol.App.Server.{
  Entry, Server, Command, Event, CircularQueue, IsCircularQueue, last, max_events, select_event,
  log_entry,
}
use flip_flop_protocol.App.Server.Log.{delivery, delivery-offset}
use flip_flop_protocol.App.Server.Select.{find_event-delivery, find_event-none}
use flip_flop_protocol.App.Server.Invariant.{IsServer, Reachable, Reachable-IsServer}

module _ {T : Type 0} where
  -- The code's reply, with its test of the range and its fallback to the oldest event, neither of
  -- which offset-rules.md has: `es` are the events in the log from the newest to the oldest.
  unfoldable pub log_reply :
      Option ℕ → Option ℕ → List (Entry T) → Option ℕ → T → Option (EventOf Event NoEe × T)
  log_reply none end es last_event_offset now = none
  log_reply (some start) none es last_event_offset now = none
  log_reply (some start) (some end) es none now = log_entry (last es)
  log_reply (some start) (some end) es (some n) now =
      if leb start n && leb n end
      then log_entry (delivery n (last es) es)
      else some (recovery start end, now)

  module _ {Q : Type 0} (queue : CircularQueue Q (Entry T))
      (laws : IsCircularQueue max_events queue) where
    log_reply_of_find :
        (s : Server Q) (request : CommandRequest Command) (now : T)
        (start end last_event_offset : Option ℕ)
        → IsServer queue s
        → s.start ≡ start
        → s.end ≡ end
        → request.last_event_offset ≡ last_event_offset
        → select_event queue s request now
          ≡ log_reply start end (queue.iter s.events) last_event_offset now
    unfolding select_event log_reply
    log_reply_of_find s request now none end o i e₁ e₂ e₃ = rw e₁ refl
    log_reply_of_find s request now (some start) none o i e₁ e₂ e₃ = rw (e₁, e₂) refl
    log_reply_of_find s request now (some start) (some end) none i e₁ e₂ e₃ =
        rw (e₁, e₂, e₃, find_event-none (queue.iter s.events)) refl
    log_reply_of_find s request now (some start) (some end) (some n) i e₁ e₂ e₃ =
        let short = i.short in
        rw
          (
            e₁,
            e₂,
            e₃,
            find_event-delivery n s.event_offset (queue.iter s.events) i.offset_u32 (omega arith)
                i.log,
          )
          refl

    -- A reachable server replies nothing before the first event, the oldest event to a client that
    -- has processed none, a recovery event to an offset outside `start` and `end`, and else the
    -- event at the offset's successor, none if only the offset itself is in the log, and the oldest
    -- event if neither is.
    pub select_event-log_reply :
        (s : Server Q) (request : CommandRequest Command) (now : T)
        → Reachable queue s
        → select_event queue s request now
          ≡ log_reply s.start s.end (queue.iter s.events) request.last_event_offset now
    select_event-log_reply s request now r =
        log_reply_of_find s request now s.start s.end request.last_event_offset
          (Reachable-IsServer queue laws s r) refl refl refl

    log_reply-logged_ne :
        (start end : Option ℕ) (es : List (Entry T)) (n o : ℕ) (now t : T) (e : Event)
        → log_reply start end es (some n) now ≡ some (logged e o, t)
        → o ≢ n
    unfolding log_reply
    log_reply-logged_ne none end es n o now t e f = absurd (ground arith)
    log_reply-logged_ne (some start) none es n o now t e f = absurd (ground arith)
    log_reply-logged_ne (some start) (some end) es n o now t e f =
        elim (Option-cases (delivery n (last es) es)) [
          | inl g ↦ absurd (ground arith)
          | inr (x, g) ↦ let ne = delivery-offset n es {e = x} g in ground arith
        ]

    -- A reachable server never replies the logged event at the offset that the request says was
    -- processed last.
    pub select_event-logged_ne :
        (s : Server Q) (request : CommandRequest Command) (now t : T) (n o : ℕ) (e : Event)
        → Reachable queue s
        → request.last_event_offset ≡ some n
        → select_event queue s request now ≡ some (logged e o, t)
        → o ≢ n
    select_event-logged_ne s request now t n o e r f g =
        let h = rw (select_event-log_reply s request now r, f) at g in
        log_reply-logged_ne s.start s.end (queue.iter s.events) n o now t e h
