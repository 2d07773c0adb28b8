-- ===== src/App/Server/Log.antt =====
-- app/examples/server/main.rs: the offsets in the log, and the event
-- that the code picks by them.
use flip_flop_protocol.Common.{
  ℕ, suc, ◌+◌, ◌%◌, ◌^◌, ◌<◌, ◌≡◌, ◌≢◌, arith, Option, none, some, List, [], ◌∷◌, ◌==◌,
  if◌then◌else◌, length, Bool-cases, Option-cases, inl, inr,
}
use flip_flop_protocol.App.Server.{Entry, successor, last}

module _ {T : Type 0} where
  -- From the newest to the oldest, each offset is the successor of the one behind it, and `next` is
  -- the successor of the newest.
  abbrev pub IsLog : ℕ → List (Entry T) → Type 0
  IsLog next [] = Unit
  IsLog next (e ∷ es) = (e.offset < 2 ^ 32) × (successor e.offset ≡ next) × IsLog e.offset es

  -- The event at an offset.
  abbrev pub lookup : ℕ → List (Entry T) → Option (Entry T)
  lookup n [] = none
  lookup n (e ∷ es) = let rest = lookup n es in if e.offset == n then some e else rest

  pub lookup-lt :
      (next : ℕ) (es : List (Entry T)) (m : ℕ) {e : Entry T}
      → next < 2 ^ 32
      → IsLog next es
      → lookup m es ≡ some e
      → (k : ℕ) × (k < length es) × ((m + 1 + k) % 2 ^ 32 ≡ next)
  lookup-lt next [] m hn h f = absurd (ground arith)
  lookup-lt next (e' ∷ es) m {e} hn (he, hs, h) f = elim (Bool-cases (e'.offset == m)) [
    | inl t ↦ (0, omega arith, ground arith)
    | inr t ↦
        let (k, hk, g) = lookup-lt e'.offset es m {e = e} he h (ground arith) in
        (suc k, omega arith, omega arith)
  ]

  -- The successor of the newest offset is not in the log.
  pub lookup-successor :
      (next : ℕ) (es : List (Entry T))
      → next < 2 ^ 32
      → length es + 1 < 2 ^ 32
      → IsLog next es
      → lookup (successor next) es ≡ none
  lookup-successor next es hn hl h = elim (Option-cases (lookup (successor next) es)) [
    | inl f ↦ f
    | inr (e, f) ↦
        let (k, hk, g) = lookup-lt next es (successor next) {e = e} hn h f in absurd (omega arith)
  ]

  -- The code's choice at an offset `n` of the client: the event at the successor, none if only `n`
  -- is in the log, and the oldest event if neither is.
  abbrev pub delivery : ℕ → Option (Entry T) → List (Entry T) → Option (Entry T)
  delivery n oldest es = elim (lookup (successor n) es) [
    | some e ↦ some e
    | none ↦ elim (lookup n es) [ some _ ↦ none | none ↦ oldest ]
  ]

  -- Where an offset is in the log and its successor is not to come, its successor is in the log too.
  pub lookup_next :
      (next n : ℕ) (es : List (Entry T)) {e : Entry T}
      → IsLog next es
      → lookup n es ≡ some e
      → successor n ≢ next
      → (e' : Entry T) × (lookup (successor n) es ≡ some e')
  lookup_next next n [] h f g = absurd (ground arith)
  lookup_next next n (e₀ ∷ es) {e} (he, hs, h) f g = elim (Bool-cases (e₀.offset == successor n)) [
    | inl t ↦ (e₀, ground arith)
    | inr t ↦
        let (e', f') = lookup_next e₀.offset n es {e = e} h (ground arith) (ground arith) in
        (e', ground arith)
  ]

  pub lookup-offset :
      (n : ℕ) (es : List (Entry T)) {e : Entry T} → lookup n es ≡ some e → e.offset ≡ n
  lookup-offset n [] f = absurd (ground arith)
  lookup-offset n (e₀ ∷ es) {e} f = ground (arith, lookup-offset n es {e = e})

  pub lookup-last :
      (n : ℕ) (es : List (Entry T)) {e : Entry T}
      → lookup n es ≡ none
      → last es ≡ some e
      → e.offset ≢ n
  lookup-last n [] f g = absurd (ground arith)
  lookup-last n (e₀ ∷ []) {e} f g = ground arith
  lookup-last n (e₀ ∷ e₁ ∷ es) {e} f g = lookup-last n (e₁ ∷ es) (ground arith) g

  -- What is chosen is never the event at the client's own offset.
  pub delivery-offset :
      (n : ℕ) (es : List (Entry T)) {e : Entry T} → delivery n (last es) es ≡ some e → e.offset ≢ n
  delivery-offset n es {e} f = elim (Option-cases (lookup (successor n) es)) [
    | inl g ↦ elim (Option-cases (lookup n es)) [
      | inl h ↦ lookup-last n es {e = e} h (ground arith)
      | inr (_, h) ↦ absurd (ground arith)
    ]
    | inr (e', g) ↦ let at = lookup-offset (successor n) es g in ground arith
  ]
