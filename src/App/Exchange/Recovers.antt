-- ===== src/App/Exchange/Recovers.antt =====
-- app/examples: a client whose offset the server does not have, from its next poll on.
mod Examples
use flip_flop_protocol.Common.{
  ℕ, ◌+◌, ◌-◌, ◌%◌, ◌^◌, ◌≤◌, ◌<◌, ◌≡◌, refl, ap, ◌∙◌, arith, some, List, [], ◌∷◌, ◌++◌, ◌⊎◌,
  length, append-nil, inl, inr,
}
use flip_flop_protocol.App.{recovery}
use flip_flop_protocol.App.Server.{Entry, CircularQueue, IsCircularQueue, max_events, reply}
use flip_flop_protocol.App.Server.Log.{IsLog}
use flip_flop_protocol.App.Server.Invariant.{IsBounds, Reachable, Reachable-IsServer}
use flip_flop_protocol.App.Server.Rules.{log_reply}
use flip_flop_protocol.App.Client.{request_of, receive_reply, receive_event_of}
use flip_flop_protocol.App.Exchange.Schedule.{
  Action, asks, System, step, run, KeepsUp, arrivals, deliveries, counted, IsPacing,
}
use flip_flop_protocol.App.Exchange.Recent.{reply-log_reply}
use flip_flop_protocol.App.Exchange.Fifo.{run-deliveries}

module _ {T : Type 0} where
  next_of_end :
      (start end next : ℕ) (es : List (Entry T))
      → IsBounds (some start) (some end) next es
      → IsLog next es
      → 0 < length es
      → end + 1 < 2 ^ 32
      → next ≡ end + 1
  next_of_end start end next [] b h more he = absurd (omega arith)
  next_of_end start end next (e ∷ es) b (he', hs, h) more he = omega (arith, b)

  log_reply_outside :
      (start end n : ℕ) (es : List (Entry T)) (now : T)
      → (n < start) ⊎ (end < n)
      → log_reply (some start) (some end) es (some n) now ≡ some (recovery start end, now)
  unfolding log_reply
  log_reply_outside start end n es now (inl below) = ground arith
  log_reply_outside start end n es now (inr above) = ground arith

module _ {T Q : Type 0} (queue : CircularQueue Q (Entry T)) (duration_since : T → ℕ)
    (laws : IsCircularQueue max_events queue) where
  -- The poll that is answered by a recovery event.
  asks_outside :
      (start end n : ℕ) (x : System Q) (now : T)
      → Reachable queue x.server
      → x.server.start ≡ some start
      → x.server.end ≡ some end
      → start ≤ end
      → end + 1 < 2 ^ 32
      → 0 < length (queue.iter x.server.events)
      → end - start ≤ length (queue.iter x.server.events)
      → x.client.last_event_offset ≡ some n
      → (n < start) ⊎ (end < n)
      → let y = step queue duration_since x (asks now) in
        IsPacing queue start end start 0 (end - start) y
        × (y.delivered ≡ x.delivered)
        × (y.server ≡ x.server)
  unfolding step receive_reply receive_event_of
  asks_outside start end n x now r has_start has_end le he more held has_offset outside =
      let i = Reachable-IsServer queue laws x.server r in
      let es = queue.iter x.server.events in
      let next =
        next_of_end start end x.server.event_offset es (rw (has_start, has_end) at i.bounds) i.log
          more he in
      let rule = log_reply_outside start end n es now outside in
      let answer : (reply queue duration_since x.server (request_of x.client) now).event
          ≡ some (recovery start end) =
        rw
          (
            reply-log_reply queue duration_since laws x.server now x.client r,
            has_start,
            has_end,
            has_offset,
            rule,
          )
          refl in
      (
        record {
          reachable = r;
          has_start = has_start;
          has_end = has_end;
          has_next = next;
          has_offset = rw answer refl;
          has_count = rw answer refl;
          start_le = omega arith;
          pending = omega arith;
          held = held;
        },
        rw answer (append-nil x.delivered),
        refl,
      )

  -- A client whose offset lies outside `start` and `end` of a reachable server with a log that is
  -- not empty and holds the events behind `start`: its next poll that is not lost gives it no
  -- event, and from then on, over any schedule of arriving events and of polls, some of which are
  -- lost, in which no event resets the log, never more than ten events wait, and no offset wraps
  -- around, it is given the events behind `start` in order without a gap and each once, one for
  -- each poll that is not lost and finds one waiting, and has counted only these.
  pub run-recovery :
      (now : T) (actions : List (Action T)) (start end n : ℕ) (x : System Q)
      → Reachable queue x.server
      → x.server.start ≡ some start
      → x.server.end ≡ some end
      → start ≤ end
      → end + arrivals actions + 1 < 2 ^ 32
      → 0 < length (queue.iter x.server.events)
      → end - start ≤ length (queue.iter x.server.events)
      → x.client.last_event_offset ≡ some n
      → (n < start) ⊎ (end < n)
      → KeepsUp (end - start) actions
      → let y = run queue duration_since x (asks now ∷ actions) in
        let k = deliveries (end - start) actions in
        (y.delivered ≡ x.delivered ++ counted (start + 1) k)
        × (y.client.last_event_offset ≡ some (start + k))
        × (y.client.event_count ≡ k % 2 ^ 32)
        × (y.server.end ≡ some (end + arrivals actions))
  unfolding run
  run-recovery now actions start end n x r has_start has_end le he more held has_offset outside
        keeps =
      let (paced, same, _) =
        asks_outside start end n x now r has_start has_end le (omega arith) more held has_offset
          outside in
      let (delivered, offset, total, ended) =
        run-deliveries queue duration_since laws actions start end start 0 (end - start)
          (step queue duration_since x (asks now)) paced (omega arith) he keeps in
      (
        delivered
            ∙ ap (λ sent. sent ++ counted (start + 1) (deliveries (end - start) actions)) same,
        offset,
        total ∙ omega arith,
        ended,
      )
