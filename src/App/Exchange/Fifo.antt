-- ===== src/App/Exchange/Fifo.antt =====
-- app/examples: a client that keeps up is given every event once, in order.
mod Examples
use flip_flop_protocol.Common.{
  ℕ, zero, suc, ◌+◌, ◌-◌, ◌%◌, ◌^◌, ◌≤◌, ◌<◌, ◌≡◌, ◌≢◌, refl, sym, ap, ◌∙◌, arith, false, none,
  some, List, [], ◌∷◌, ◌++◌, ◌==◌, length-take, append_assoc, append-nil,
}
use flip_flop_protocol.App.{logged}
use flip_flop_protocol.App.Server.{
  Entry, CircularQueue, IsCircularQueue, max_events, some_event, reply, successor, receive_event,
  store_event,
}
use flip_flop_protocol.App.Server.Log.{lookup-offset}
use flip_flop_protocol.App.Server.Invariant.{received, Reachable-IsServer}
use flip_flop_protocol.App.Client.{request_of, receive_reply, receive_event_of}
use flip_flop_protocol.App.Exchange.{log_reply_newer}
use flip_flop_protocol.App.Exchange.Schedule.{
  Action, arrives, asks, loses, System, step, run, KeepsUp, arrivals, deliveries, counted, IsPacing,
}
use flip_flop_protocol.App.Exchange.Recent.{lookup_recent, log_reply_at_end, reply-log_reply}

module _ {T Q : Type 0} (queue : CircularQueue Q (Entry T)) (duration_since : T → ℕ)
    (laws : IsCircularQueue max_events queue) where
  arrives-IsPacing :
      (start end n count lag : ℕ) (x : System Q) (event_instant : T) (draw drawn : ℕ)
      → IsPacing queue start end n count lag x
      → draw ≢ 0
      → drawn < max_events
      → lag + 1 ≤ max_events
      → end + 2 < 2 ^ 32
      → IsPacing queue start
          (end + 1)
          n
          count
          (lag + 1)
          (step queue duration_since x (arrives event_instant draw drawn))
  unfolding step receive_event store_event
  arrives-IsPacing start end n count lag x event_instant draw drawn p h hd hl he =
      let more = p.pending in
      let kept = p.held in
      let next = p.has_next in
      let pushed : Entry T = record {
        event = some_event;
        offset = x.server.event_offset;
        instant = event_instant;
      } in
      let stored : (draw == 0) ≡ false = ground arith in
      record {
        reachable = received event_instant draw drawn hd p.reachable;
        has_start = rw (stored, p.has_start) refl;
        has_end = rw (stored, next) refl;
        has_next = rw (stored, next) (omega arith);
        has_offset = p.has_offset;
        has_count = p.has_count;
        start_le = p.start_le;
        pending = omega arith;
        held =
            rw (stored, laws.iter-push pushed x.server.events)
              (omega (arith, length-take max_events (pushed ∷ queue.iter x.server.events)));
      }

  -- A poll that finds no event, and one that finds the next.
  asks_current :
      (start end n count : ℕ) (x : System Q) (now : T)
      → IsPacing queue start end n count 0 x
      → end + 1 < 2 ^ 32
      → step queue duration_since x (asks now) ≡ x
  unfolding step receive_reply receive_event_of
  asks_current start end n count x now p he =
      let i = Reachable-IsServer queue laws x.server p.reachable in
      let es = queue.iter x.server.events in
      let short = i.short in
      let at_end : n ≡ end = omega (arith, p.pending) in
      let rule =
        log_reply_at_end start end (end + 1) es now (omega (arith, p.start_le)) he (omega arith)
          refl (rw p.has_next at i.log) in
      let answer : (reply queue duration_since x.server (request_of x.client) now).event ≡ none =
        rw
          (
            reply-log_reply queue duration_since laws x.server now x.client p.reachable,
            p.has_start,
            p.has_end,
            p.has_offset,
            at_end,
            rule,
          )
          refl in
      rw (answer, append-nil x.delivered) refl

  asks_newer :
      (start end n count lag : ℕ) (x : System Q) (now : T)
      → IsPacing queue start end n count (suc lag) x
      → end + 1 < 2 ^ 32
      → IsPacing queue start end
          (n + 1)
          ((count + 1) % 2 ^ 32)
          lag
          (step queue duration_since x (asks now))
        × ((step queue duration_since x (asks now)).delivered ≡ x.delivered ++ (n + 1) ∷ [])
  unfolding step receive_reply receive_event_of
  asks_newer start end n count lag x now p he =
      let i = Reachable-IsServer queue laws x.server p.reachable in
      let es = queue.iter x.server.events in
      let more = p.pending in
      let kept = p.held in
      let from = p.start_le in
      let next : x.server.event_offset ≡ (n + 1) + lag + 1 = omega (arith, p.has_next) in
      let (e, found) =
        lookup_recent (n + 1) lag es (rw next at i.log) (omega arith) (omega arith) in
      let small : successor n ≡ n + 1 = omega arith in
      let at = lookup-offset (n + 1) es {e = e} found in
      let rule =
        log_reply_newer start end n es now {e = e} (omega arith) (omega arith) (rw small found) in
      let answer : (reply queue duration_since x.server (request_of x.client) now).event
          ≡ some (logged e.event (n + 1)) =
        rw
          (
            reply-log_reply queue duration_since laws x.server now x.client p.reachable,
            p.has_start,
            p.has_end,
            p.has_offset,
            rule,
            at,
          )
          refl in
      (
        record {
          reachable = p.reachable;
          has_start = p.has_start;
          has_end = p.has_end;
          has_next = p.has_next;
          has_offset = rw answer refl;
          has_count = rw (answer, p.has_count) refl;
          start_le = omega arith;
          pending = omega arith;
          held = omega arith;
        },
        rw answer refl,
      )

  -- Over any schedule of arriving events and of polls, some of which are lost, in which no event
  -- resets the log, never more than ten events wait, and no offset wraps around, a client of a
  -- reachable server whose next event is the one behind `end`, at an offset from `start` on and
  -- with all later events in the log, is given the events behind that offset in order without a
  -- gap and each once, one for each poll that is not lost and finds one waiting; its offset and
  -- its count of events advance by as many, and `end` by the number of arrivals.
  pub run-deliveries :
      (actions : List (Action T)) (start end n count lag : ℕ) (x : System Q)
      → IsPacing queue start end n count lag x
      → count < 2 ^ 32
      → end + arrivals actions + 1 < 2 ^ 32
      → KeepsUp lag actions
      → let y = run queue duration_since x actions in
        let k = deliveries lag actions in
        (y.delivered ≡ x.delivered ++ counted (n + 1) k)
        × (y.client.last_event_offset ≡ some (n + k))
        × (y.client.event_count ≡ (count + k) % 2 ^ 32)
        × (y.server.end ≡ some (end + arrivals actions))
  unfolding run receive_reply
  run-deliveries [] start end n count lag x p hc he h = (
    sym (append-nil x.delivered),
    p.has_offset ∙ ground arith,
    p.has_count ∙ omega arith,
    p.has_end ∙ ground arith,
  )
  run-deliveries (arrives event_instant draw drawn ∷ actions) start end n count lag x p hc he
        (h₁, h₂, h₃, h) =
      let p' =
        arrives-IsPacing start end n count lag x event_instant draw drawn p h₁ h₂ h₃
          (omega arith) in
      let (delivered, offset, total, ended) =
        run-deliveries actions start (end + 1) n count (lag + 1)
          (step queue duration_since x (arrives event_instant draw drawn)) p' hc (omega arith) h in
      (delivered, offset, total, ended ∙ ground arith)
  run-deliveries (asks now ∷ actions) start end n count zero x p hc he h =
      let rest = run-deliveries actions start end n count 0 x p hc he h in
      rw (run, asks_current start end n count x now p (omega arith)) rest
  run-deliveries (asks now ∷ actions) start end n count (suc lag) x p hc he h =
      let (p', one) = asks_newer start end n count lag x now p (omega arith) in
      let (delivered, offset, total, ended) =
        run-deliveries actions start end (n + 1) ((count + 1) % 2 ^ 32) lag
          (step queue duration_since x (asks now)) p' (omega arith) he h in
      (
        delivered
            ∙ ap (λ sent. sent ++ counted (n + 1 + 1) (deliveries lag actions)) one
            ∙ append_assoc x.delivered ((n + 1) ∷ [])
                (counted (n + 1 + 1) (deliveries lag actions)),
        offset ∙ ground arith,
        total ∙ ground arith,
        ended,
      )
  run-deliveries (loses now ∷ actions) start end n count lag x p hc he h =
      run-deliveries actions start end n count lag x p hc he h
