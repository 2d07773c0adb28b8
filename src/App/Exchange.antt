-- ===== src/App/Exchange.antt =====
-- app/examples: a client that polls a server, whose log does not change meanwhile.
pub mod CatchUp
pub mod Schedule
pub mod Recent
pub mod Fifo
pub mod Recovers
use flip_flop_protocol.Common.{
  ℕ, zero, suc, ◌+◌, ◌-◌, ◌^◌, ◌≤◌, ◌<◌, ◌≡◌, refl, arith, Option, none, some, List, [], ◌∷◌, ◌==◌,
  length, Bool-cases, inl, inr,
}
use native.Mathlib.Nat.{le_refl}
use flip_flop_protocol.App.{NoEe, EventOf, logged, event_reply}
use flip_flop_protocol.App.Server.{
  Entry, Server, Event, CircularQueue, IsCircularQueue, last, max_events, select_event, reply,
  successor,
}
use flip_flop_protocol.App.Server.Log.{IsLog, lookup, lookup-successor, lookup_next, lookup-offset}
use flip_flop_protocol.App.Server.Invariant.{IsBounds, Reachable, Reachable-IsServer}
use flip_flop_protocol.App.Server.Rules.{log_reply, select_event-log_reply}
use flip_flop_protocol.App.Client.{Client, request_of, receive_reply, receive_event_of}

module _ {T : Type 0} where
  lookup_newest :
      (next n : ℕ) (es : List (Entry T)) {e : Entry T}
      → IsLog next es
      → length es < 2 ^ 32
      → lookup n es ≡ some e
      → successor n ≡ next
      → n < 2 ^ 32
      → lookup (successor n) es ≡ none
  lookup_newest next n [] h hl f g hn = absurd (ground arith)
  lookup_newest next n (e₀ ∷ es) {e} (he, hs, h) hl f g hn =
      let same : e₀.offset ≡ n = omega arith in
      let older = lookup-successor e₀.offset es he (omega arith) h in ground arith

  lookup_oldest :
      (es : List (Entry T)) {e : Entry T}
      → last es ≡ some e
      → (e' : Entry T) × (lookup e.offset es ≡ some e')
  lookup_oldest [] f = absurd (ground arith)
  lookup_oldest (e₀ ∷ []) {e} f = (e₀, ground arith)
  lookup_oldest (e₀ ∷ e₁ ∷ es) {e} f = elim (Bool-cases (e₀.offset == e.offset)) [
    | inl t ↦ (e₀, ground arith)
    | inr t ↦ let (e', g) = lookup_oldest (e₁ ∷ es) {e = e} f in (e', ground arith)
  ]

  newest_offset :
      (start end next n : ℕ) (es : List (Entry T)) {e : Entry T}
      → IsBounds (some start) (some end) next es
      → IsLog next es
      → lookup n es ≡ some e
      → (successor end ≡ next) × (end < 2 ^ 32)
  newest_offset start end next n [] b h f = absurd (ground arith)
  newest_offset start end next n (e₀ ∷ es) b (he, hs, h) f = (rw b hs, rw b he)

  log_reply_newer :
      (start end n : ℕ) (es : List (Entry T)) (now : T) {e : Entry T}
      → start ≤ n
      → n ≤ end
      → lookup (successor n) es ≡ some e
      → log_reply (some start) (some end) es (some n) now
        ≡ some (logged e.event e.offset, e.instant)
  unfolding log_reply
  log_reply_newer start end n es now h₁ h₂ f = ground arith

  log_reply_current :
      (start end n : ℕ) (es : List (Entry T)) (now : T) {e : Entry T}
      → start ≤ n
      → n ≤ end
      → lookup (successor n) es ≡ none
      → lookup n es ≡ some e
      → log_reply (some start) (some end) es (some n) now ≡ none
  unfolding log_reply
  log_reply_current start end n es now h₁ h₂ f g = ground arith

  abbrev event_of : Option (EventOf Event NoEe × T) → Option (EventOf Event NoEe)
  event_of none = none
  event_of (some (e, t)) = some e

  event_reply-event :
      (o : Option (EventOf Event NoEe × T)) (f : T → ℕ) → (event_reply o f).event ≡ event_of o
  unfolding event_reply
  event_reply-event none f = refl
  event_reply-event (some (e, t)) f = refl

  module _ {Q : Type 0} (queue : CircularQueue Q (Entry T)) (duration_since : T → ℕ) where
    unfoldable pub exchange : Server Q → T → Client → Client
    exchange s now c = receive_reply c (some (reply queue duration_since s (request_of c) now))

    unfoldable pub polls : ℕ → Server Q → T → Client → Client
    unfolding exchange
    polls zero s now c = c
    polls (suc k) s now c = polls k s now (exchange s now c)

    exchange-event :
        (s : Server Q) (now : T) (c : Client)
        → exchange s now c ≡ receive_event_of c (event_of (select_event queue s (request_of c) now))
    unfolding exchange receive_reply reply
    exchange-event s now c =
        rw (event_reply-event (select_event queue s (request_of c) now) duration_since) refl

    module _ (laws : IsCircularQueue max_events queue) where
      exchange-log_reply :
          (s : Server Q) (now : T) (c : Client)
          → Reachable queue s
          → exchange s now c
            ≡ receive_event_of c
                (event_of (log_reply s.start s.end (queue.iter s.events) c.last_event_offset now))
      unfolding request_of
      exchange-log_reply s now c r =
          rw (exchange-event s now c, select_event-log_reply queue laws s (request_of c) now r) refl

      module _ (s : Server Q) (now : T) (start end : ℕ) (r : Reachable queue s)
          (has_start : s.start ≡ some start) (has_end : s.end ≡ some end) where
        newest :
            (n : ℕ) {e : Entry T}
            → lookup n (queue.iter s.events) ≡ some e
            → (successor end ≡ s.event_offset) × (end < 2 ^ 32)
        newest n {e} f =
            let i = Reachable-IsServer queue laws s r in
            newest_offset start end s.event_offset n (queue.iter s.events) {e = e}
              (rw (has_start, has_end) at i.bounds) i.log f

        -- A poll while newer events are in the log, and one when there are none.
        exchange_newer :
            (c : Client) (n : ℕ) {e : Entry T}
            → c.last_event_offset ≡ some n
            → start ≤ n
            → n < end
            → lookup n (queue.iter s.events) ≡ some e
            → (e' : Entry T) × (lookup (n + 1) (queue.iter s.events) ≡ some e')
              × (exchange s now c ≡ receive_event_of c (some (logged e'.event (n + 1))))
        exchange_newer c n {e} has_n h₁ h₂ f =
            let i = Reachable-IsServer queue laws s r in
            let at_end = newest n {e = e} f in
            let small : successor n ≡ n + 1 = omega arith in
            let (e', g) =
              lookup_next s.event_offset n (queue.iter s.events) {e = e} i.log f (omega arith) in
            let at = lookup-offset (successor n) (queue.iter s.events) {e = e'} g in
            let offset : e'.offset ≡ n + 1 = omega arith in
            let rule =
              log_reply_newer start end n (queue.iter s.events) now {e = e'} h₁ (omega arith) g in
            (
              e',
              rw small at g,
              rw (exchange-log_reply s now c r, has_start, has_end, has_n, rule, offset) refl,
            )

        exchange_current :
            (c : Client) {e : Entry T}
            → c.last_event_offset ≡ some end
            → start ≤ end
            → lookup end (queue.iter s.events) ≡ some e
            → exchange s now c ≡ c
        unfolding receive_event_of
        exchange_current c {e} has_n h₁ f =
            let i = Reachable-IsServer queue laws s r in
            let short = i.short in
            let at_end = newest end {e = e} f in
            let none_newer =
              lookup_newest s.event_offset end (queue.iter s.events) {e = e} i.log (omega arith) f
                at_end.0 at_end.1 in
            let rule =
              log_reply_current start end end (queue.iter s.events) now {e = e} h₁ (le_refl end)
                none_newer f in
            rw (exchange-log_reply s now c r, has_start, has_end, has_n, rule) refl
