-- ===== src/App/Exchange/Schedule.antt =====
-- app/examples: a client and a server at work, as a schedule of arriving events and of polls, some of
-- which are lost.
use flip_flop_protocol.Common.{
  ℕ, zero, suc, ◌+◌, ◌≤◌, ◌<◌, ◌≡◌, ◌≢◌, Option, none, some, List, [], ◌∷◌, ◌++◌, length,
}
use flip_flop_protocol.App.{NoEe, EventOf, logged, ephemeral, recovery}
use flip_flop_protocol.App.Server.{
  Entry, Server, Event, CircularQueue, max_events, reply, receive_event,
}
use flip_flop_protocol.App.Server.Invariant.{Reachable}
use flip_flop_protocol.App.Client.{Client, request_of, receive_reply}

-- The server's two random numbers come with an event. Where the request or its reply is lost, the
-- client has nothing to read, and a reply does not change the server.
pub data Action (T : Type 0) : Type 0 where
  arrives : (event_instant : T) (draw drawn : ℕ) → Action T
  asks : (now : T) → Action T
  loses : (now : T) → Action T

-- The offsets of the logged events that the client has been given, from the first on.
pub record System (Q : Type 0) : Type 0 where
  pub server : Server Q
  pub client : Client
  pub delivered : List ℕ

abbrev pub offset_of : Option (EventOf Event NoEe) → List ℕ
offset_of (some (logged event offset)) = offset ∷ []
offset_of (some (ephemeral e)) = []
offset_of (some (recovery start end)) = []
offset_of none = []

module _ {T Q : Type 0} (queue : CircularQueue Q (Entry T)) (duration_since : T → ℕ) where
  unfoldable pub step : System Q → Action T → System Q
  step x (arrives event_instant draw drawn) = record x {
    server = receive_event queue x.server event_instant draw drawn;
  }
  step x (asks now) =
      let answer = reply queue duration_since x.server (request_of x.client) now in
      record x {
        client = receive_reply x.client (some answer);
        delivered = x.delivered ++ offset_of answer.event;
      }
  step x (loses now) = record x { client = receive_reply x.client none }

  unfoldable pub run : System Q → List (Action T) → System Q
  unfolding step
  run x [] = x
  run x (a ∷ actions) = run (step x a) actions

-- No event resets the log, and no more events are still to be delivered than the log can hold.
abbrev pub KeepsUp : {T : Type 0} → ℕ → List (Action T) → Type 0
KeepsUp lag [] = Unit
KeepsUp lag (arrives event_instant draw drawn ∷ actions) =
    (draw ≢ 0) × (drawn < max_events) × (lag + 1 ≤ max_events) × KeepsUp (lag + 1) actions
KeepsUp zero (asks now ∷ actions) = KeepsUp zero actions
KeepsUp (suc lag) (asks now ∷ actions) = KeepsUp lag actions
KeepsUp lag (loses now ∷ actions) = KeepsUp lag actions

abbrev pub arrivals : {T : Type 0} → List (Action T) → ℕ
arrivals [] = 0
arrivals (arrives event_instant draw drawn ∷ actions) = 1 + arrivals actions
arrivals (asks now ∷ actions) = arrivals actions
arrivals (loses now ∷ actions) = arrivals actions

-- The number of polls that are not lost and find an event that is still to be delivered.
abbrev pub deliveries : {T : Type 0} → ℕ → List (Action T) → ℕ
deliveries lag [] = 0
deliveries lag (arrives event_instant draw drawn ∷ actions) = deliveries (lag + 1) actions
deliveries zero (asks now ∷ actions) = deliveries zero actions
deliveries (suc lag) (asks now ∷ actions) = suc (deliveries lag actions)
deliveries lag (loses now ∷ actions) = deliveries lag actions

-- The numbers from `n` on.
abbrev pub counted : ℕ → ℕ → List ℕ
counted n zero = []
counted n (suc k) = n ∷ counted (n + 1) k

module _ {T Q : Type 0} (queue : CircularQueue Q (Entry T)) where
  -- A client at the offset `n`, with `lag` events behind it, all in the log.
  pub record IsPacing (start end n count lag : ℕ) (x : System Q) : Type 0 where
    pub reachable : Reachable queue x.server
    pub has_start : x.server.start ≡ some start
    pub has_end : x.server.end ≡ some end
    pub has_next : x.server.event_offset ≡ end + 1
    pub has_offset : x.client.last_event_offset ≡ some n
    pub has_count : x.client.event_count ≡ count
    pub start_le : start ≤ n
    pub pending : n + lag ≡ end
    pub held : lag ≤ length (queue.iter x.server.events)
