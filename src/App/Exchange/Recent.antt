-- ===== src/App/Exchange/Recent.antt =====
-- app/examples: what the server replies while the log has what the client waits for.
use flip_flop_protocol.Common.{
  ℕ, zero, suc, ◌+◌, ◌^◌, ◌≤◌, ◌<◌, ◌≡◌, refl, arith, none, some, List, [], ◌∷◌, length,
}
use flip_flop_protocol.App.Server.{
  Entry, Server, CircularQueue, IsCircularQueue, max_events, reply, successor, select_event,
}
use flip_flop_protocol.App.Server.Log.{IsLog, lookup, lookup-successor}
use flip_flop_protocol.App.Server.Invariant.{Reachable}
use flip_flop_protocol.App.Server.Rules.{log_reply, select_event-log_reply}
use flip_flop_protocol.App.Client.{Client, request_of}
use flip_flop_protocol.App.Exchange.{event_of, event_reply-event, log_reply_current}

module _ {T : Type 0} where
  -- The log has the last offsets before `next`.
  pub lookup_recent :
      (next k : ℕ) (es : List (Entry T))
      → IsLog (next + k + 1) es
      → next + k + 1 < 2 ^ 32
      → k < length es
      → (e : Entry T) × (lookup next es ≡ some e)
  lookup_recent next k [] h hn hk = absurd (omega arith)
  lookup_recent next zero (e ∷ es) (he, hs, h) hn hk =
      let here : e.offset ≡ next = omega arith in (e, ground arith)
  lookup_recent next (suc k) (e ∷ es) (he, hs, h) hn hk =
      let here : e.offset ≡ next + k + 1 = omega arith in
      let (e', f) = lookup_recent next k es (rw here at h) (omega arith) (omega arith) in
      (e', ground arith)

  pub log_reply_at_end :
      (start end next : ℕ) (es : List (Entry T)) (now : T)
      → start ≤ end
      → next < 2 ^ 32
      → length es + 1 < 2 ^ 32
      → end + 1 ≡ next
      → IsLog next es
      → log_reply (some start) (some end) es (some end) now ≡ none
  unfolding log_reply
  log_reply_at_end start end next [] now h₁ hn hl e h = ground arith
  log_reply_at_end start end next (e₀ ∷ es) now h₁ hn hl e (he, hs, h) =
      let here : e₀.offset ≡ end = omega arith in
      let older = lookup-successor e₀.offset es he (omega arith) h in
      let none_newer : lookup (successor end) (e₀ ∷ es) ≡ none = ground arith in
      let newest : lookup end (e₀ ∷ es) ≡ some e₀ = ground arith in
      log_reply_current start end end (e₀ ∷ es) now {e = e₀} h₁ (omega arith) none_newer newest

module _ {T Q : Type 0} (queue : CircularQueue Q (Entry T)) (duration_since : T → ℕ)
    (laws : IsCircularQueue max_events queue) where
  pub reply-log_reply :
      (s : Server Q) (now : T) (c : Client)
      → Reachable queue s
      → (reply queue duration_since s (request_of c) now).event
        ≡ event_of (log_reply s.start s.end (queue.iter s.events) c.last_event_offset now)
  unfolding reply request_of
  reply-log_reply s now c r =
      rw
        (
          event_reply-event (select_event queue s (request_of c) now) duration_since,
          select_event-log_reply queue laws s (request_of c) now r,
        )
        refl
