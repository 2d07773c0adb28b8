-- ===== src/App/Server/Select.antt =====
-- app/examples/server/main.rs: which event is replied to a request.
use flip_flop_protocol.Common.{
  ℕ, ◌+◌, ◌^◌, ◌<◌, ◌≡◌, refl, arith, true, not, ◌&&◌, Option, none, some, List, [], ◌∷◌, ◌==◌,
  length, get_elem?,
}
use flip_flop_protocol.App.Server.{Entry, successor, last, skip_while, choose, find_event}
use flip_flop_protocol.App.Server.Log.{IsLog, lookup-successor, delivery}

module _ {T : Type 0} where
  -- `find_event` with the oldest event as an argument of its own.
  abbrev search : ℕ → Option (Entry T) → List (Entry T) → Option (Entry T)
  search n oldest es =
      let events_iter = skip_while (λ e. not (e.offset == successor n) && not (e.offset == n)) es in
      choose (some (successor n)) (some n) (get_elem? events_iter 0) (get_elem? events_iter 1)
        oldest

  search-delivery :
      (n next : ℕ) (oldest : Option (Entry T)) (es : List (Entry T))
      → next < 2 ^ 32
      → length es + 1 < 2 ^ 32
      → IsLog next es
      → search n oldest es ≡ delivery n oldest es
  unfolding choose
  search-delivery n next oldest [] hn hl h = refl
  search-delivery n next oldest (e ∷ es) hn hl (he, hs, h) =
      let rest = search-delivery n e.offset oldest es he (omega arith) h in
      let newer = lookup-successor e.offset es he (omega arith) h in ground arith

  pub find_event-delivery :
      (n next : ℕ) (es : List (Entry T))
      → next < 2 ^ 32
      → length es + 1 < 2 ^ 32
      → IsLog next es
      → find_event (some n) es ≡ delivery n (last es) es
  unfolding find_event
  find_event-delivery n next es hn hl h = search-delivery n next (last es) es hn hl h

  skip_all : (es : List (Entry T)) → skip_while (λ e. true) es ≡ []
  skip_all [] = refl
  skip_all (e ∷ es) = skip_all es

  -- A client that has processed nothing is given the oldest event.
  pub find_event-none : (es : List (Entry T)) → find_event none es ≡ last es
  unfolding find_event choose
  find_event-none es = rw (skip_all es) refl
