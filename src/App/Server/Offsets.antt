-- ===== src/App/Server/Offsets.antt =====
-- app/examples/server/main.rs: the offsets in a reply fit their type.
use flip_flop_protocol.Common.{
  ℕ, ◌^◌, ◌<◌, arith, ◌&&◌, ◌==◌, leb, Option, none, some, List, [], ◌∷◌, Bool-cases, Option-cases,
  inl, inr,
}
use flip_flop_protocol.App.{CommandRequest, NoEe, EventOf, logged, ephemeral, recovery, event_reply}
use flip_flop_protocol.App.Server.{
  Entry, Server, Command, Event, CircularQueue, IsCircularQueue, last, max_events, select_event,
  reply, log_entry, successor, new_server, receive_event, reset_events, store_event,
}
use flip_flop_protocol.App.Server.Log.{IsLog, lookup, delivery}
use flip_flop_protocol.App.Server.Invariant.{Reachable, started, received, Reachable-IsServer}
use flip_flop_protocol.App.Server.Rules.{log_reply, select_event-log_reply}

abbrev pub IsOffset : Option ℕ → Type 0
IsOffset none = Unit
IsOffset (some o) = o < 2 ^ 32

abbrev pub IsEvent : Option (EventOf Event NoEe) → Type 0
IsEvent none = Unit
IsEvent (some (logged event offset)) = offset < 2 ^ 32
IsEvent (some (ephemeral e)) = Unit
IsEvent (some (recovery start end)) = (start < 2 ^ 32) × (end < 2 ^ 32)

start-IsOffset :
    (start : Option ℕ) (next : ℕ)
    → IsOffset start
    → next < 2 ^ 32
    → IsOffset (elim start [ none ↦ some next | some start' ↦ some start' ])
start-IsOffset none next h hn = hn
start-IsOffset (some start) next h hn = h

module _ {T : Type 0} where
  abbrev IsEntry : Option (Entry T) → Type 0
  IsEntry none = Unit
  IsEntry (some e) = e.offset < 2 ^ 32

  abbrev event_of : Option (EventOf Event NoEe × T) → Option (EventOf Event NoEe)
  event_of none = none
  event_of (some (e, t)) = some e

  lookup-IsEntry : (next n : ℕ) (es : List (Entry T)) → IsLog next es → IsEntry (lookup n es)
  lookup-IsEntry next n [] h = tt
  lookup-IsEntry next n (e ∷ es) (he, hs, h) = elim (Bool-cases (e.offset == n)) [
    | inl t ↦ rw t he
    | inr t ↦ rw t (lookup-IsEntry e.offset n es h)
  ]

  last-IsEntry : (next : ℕ) (es : List (Entry T)) → IsLog next es → IsEntry (last es)
  last-IsEntry next [] h = tt
  last-IsEntry next (e ∷ []) (he, hs, h) = he
  last-IsEntry next (e ∷ e' ∷ es) (he, hs, h) = last-IsEntry e.offset (e' ∷ es) h

  delivery-IsEntry :
      (next n : ℕ) (es : List (Entry T)) → IsLog next es → IsEntry (delivery n (last es) es)
  delivery-IsEntry next n es h =
      let newer = lookup-IsEntry next (successor n) es h in
      elim (Option-cases (lookup (successor n) es)) [
        | inr (e, f) ↦ rw (f, delivery) (rw f at newer)
        | inl f ↦ elim (Option-cases (lookup n es)) [
          | inr (e, g) ↦ rw (f, g, delivery) tt
          | inl g ↦ rw (f, g, delivery) (last-IsEntry next es h)
        ]
      ]

  log_entry-IsEvent : (o : Option (Entry T)) → IsEntry o → IsEvent (event_of (log_entry o))
  log_entry-IsEvent none h = tt
  log_entry-IsEvent (some e) h = h

  log_reply-IsEvent :
      (start end o : Option ℕ) (next : ℕ) (es : List (Entry T)) (now : T)
      → IsOffset start
      → IsOffset end
      → IsLog next es
      → IsEvent (event_of (log_reply start end es o now))
  unfolding log_reply
  log_reply-IsEvent none end o next es now hs he h = tt
  log_reply-IsEvent (some start) none o next es now hs he h = tt
  log_reply-IsEvent (some start) (some end) none next es now hs he h =
      log_entry-IsEvent (last es) (last-IsEntry next es h)
  log_reply-IsEvent (some start) (some end) (some n) next es now hs he h =
      elim (Bool-cases (leb start n && leb n end)) [
        | inl t ↦ rw t (log_entry-IsEvent (delivery n (last es) es) (delivery-IsEntry next n es h))
        | inr t ↦ rw t (hs, he)
      ]

  event_reply-IsEvent :
      (o : Option (EventOf Event NoEe × T)) (f : T → ℕ)
      → IsEvent (event_of o)
      → IsEvent (event_reply o f).event
  unfolding event_reply
  event_reply-IsEvent none f h = h
  event_reply-IsEvent (some (e, t)) f h = h

  module _ {Q : Type 0} (queue : CircularQueue Q (Entry T))
      (laws : IsCircularQueue max_events queue) where
    bounds-IsOffset : (s : Server Q) → Reachable queue s → IsOffset s.start × IsOffset s.end
    unfolding new_server receive_event reset_events store_event
    bounds-IsOffset s (started drawn h) = (tt, tt)
    bounds-IsOffset _ (received {s} event_instant draw drawn h r) =
        let (start, end) = bounds-IsOffset s r in
        let i = Reachable-IsServer queue laws s r in
        let next = i.offset_u32 in
        elim (Bool-cases (draw == 0)) [
          | inl t ↦ rw t (omega arith, omega arith)
          | inr t ↦ rw t (start-IsOffset s.start s.event_offset start next, next)
        ]

    pub reply-IsEvent :
        (duration_since : T → ℕ) (s : Server Q) (request : CommandRequest Command) (now : T)
        → Reachable queue s
        → IsEvent (reply queue duration_since s request now).event
    unfolding reply
    reply-IsEvent duration_since s request now r =
        let i = Reachable-IsServer queue laws s r in
        let (start, end) = bounds-IsOffset s r in
        event_reply-IsEvent (select_event queue s request now) duration_since (
          rw (select_event-log_reply queue laws s request now r) (
            log_reply-IsEvent s.start s.end request.last_event_offset s.event_offset
              (queue.iter s.events) now start end i.log))
