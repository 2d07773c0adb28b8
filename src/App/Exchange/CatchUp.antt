-- ===== src/App/Exchange/CatchUp.antt =====
-- app/examples: what repeated polls of one state of the server bring to a client.
use flip_flop_protocol.Common.{
  ℕ, zero, suc, ◌+◌, ◌-◌, ◌%◌, ◌^◌, ◌≤◌, ◌<◌, ◌≡◌, ◌≢◌, refl, arith, none, some, List, ltb, min,
  Bool-cases, inl, inr,
}
use flip_flop_protocol.App.{logged, recovery}
use flip_flop_protocol.App.Server.{
  Entry, Server, Event, CircularQueue, IsCircularQueue, last, max_events, select_event,
}
use flip_flop_protocol.App.Server.Log.{lookup}
use flip_flop_protocol.App.Server.Invariant.{Reachable}
use flip_flop_protocol.App.Server.Rules.{log_reply, select_event-logged_ne}
use flip_flop_protocol.App.Client.{Client, new_client, request_of, receive_event_of}
use flip_flop_protocol.App.Exchange.{
  exchange, polls, exchange-log_reply, exchange-event, exchange_newer, exchange_current,
  lookup_oldest,
}

module _ {T Q : Type 0} (queue : CircularQueue Q (Entry T)) (duration_since : T → ℕ)
    (laws : IsCircularQueue max_events queue) where
  module _ (s : Server Q) (now : T) (start end : ℕ) (r : Reachable queue s)
      (has_start : s.start ≡ some start) (has_end : s.end ≡ some end) where
    CaughtUp : ℕ → ℕ → ℕ → Client → Type 0
    CaughtUp k n count c =
        (c.last_event_offset ≡ some (min (n + k) end))
        × (c.event_count ≡ (count + min k (end - n)) % 2 ^ 32)

    polls-CaughtUp :
        (k n : ℕ) (c : Client) {e : Entry T}
        → c.last_event_offset ≡ some n
        → c.event_count < 2 ^ 32
        → start ≤ n
        → n ≤ end
        → lookup n (queue.iter s.events) ≡ some e
        → CaughtUp k n c.event_count (polls queue duration_since k s now c)
    unfolding polls receive_event_of CaughtUp
    polls-CaughtUp zero n c {e} h hc h₁ h₂ f = (ground arith, omega arith)
    polls-CaughtUp (suc k) n c {e} h hc h₁ h₂ f = elim (Bool-cases (ltb n end)) [
      | inl t ↦
          let (e', g, x) =
            exchange_newer queue duration_since laws s now start end r has_start has_end c n {e = e}
              h h₁ (ground arith) f in
          let rest =
            polls-CaughtUp k (n + 1) (receive_event_of c (some (logged e'.event (n + 1)))) {e = e'}
              refl (omega arith) (omega arith) (ground arith) g in
          rw (polls, x) (ground arith)
      | inr t ↦
          let at_end : n ≡ end = ground arith in
          let x =
            exchange_current queue duration_since laws s now start end r has_start has_end c {e = e}
              (rw at_end at h) (omega arith) (rw at_end at f) in
          let rest = polls-CaughtUp k n c {e = e} h hc h₁ h₂ f in rw (polls, x) (ground arith)
    ]

    log_reply_first :
        (es : List (Entry T)) {e : Entry T}
        → last es ≡ some e
        → log_reply (some start) (some end) es none now ≡ some (logged e.event e.offset, e.instant)
    unfolding log_reply
    log_reply_first es f = rw f refl

    -- Where the oldest offset lies between `start` and `end`, a new client that polls a reachable
    -- server `k + 1` times, with no event stored meanwhile, has counted each of the oldest event
    -- and the `k` behind it once, and is at that offset or at `end` if there are fewer.
    pub polls-new_client :
        (k : ℕ) {oldest : Entry T}
        → last (queue.iter s.events) ≡ some oldest
        → start ≤ oldest.offset
        → oldest.offset ≤ end
        → ((polls queue duration_since (suc k) s now new_client).last_event_offset
            ≡ some (min (oldest.offset + k) end))
          × ((polls queue duration_since (suc k) s now new_client).event_count
              ≡ (1 + min k (end - oldest.offset)) % 2 ^ 32)
    unfolding polls receive_event_of new_client CaughtUp
    polls-new_client k {oldest} f h₁ h₂ =
        let (e, g) = lookup_oldest (queue.iter s.events) {e = oldest} f in
        let first : exchange queue duration_since s now new_client
            ≡ receive_event_of new_client (some (logged oldest.event oldest.offset)) =
          rw
            (
              exchange-log_reply queue duration_since laws s now new_client r,
              has_start,
              has_end,
              log_reply_first (queue.iter s.events) {e = oldest} f,
            )
            refl in
        let rest =
          polls-CaughtUp k oldest.offset
            (receive_event_of new_client (some (logged oldest.event oldest.offset))) {e = e} refl
            (omega arith) h₁ h₂ g in
        rw (polls, first) rest

  -- Behind a poll that was answered by a recovery event, no state of the server that is reachable
  -- answers the next poll with the event at the recovery's start.
  pub exchange-recovery :
      (s later : Server Q) (c : Client) (now later_now t : T) (start end o : ℕ) (e : Event)
      → Reachable queue later
      → select_event queue s (request_of c) now ≡ some (recovery start end, now)
      → select_event queue later (request_of (exchange queue duration_since s now c)) later_now
        ≡ some (logged e o, t)
      → o ≢ start
  unfolding receive_event_of request_of
  exchange-recovery s later c now later_now t start end o e r f g =
      let told = rw f at (exchange-event queue duration_since s now c) in
      select_event-logged_ne queue laws later (request_of (exchange queue duration_since s now c))
        later_now t start o e r (rw told refl) g
