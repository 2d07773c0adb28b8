-- ===== src/Data/Discovery/Round.antt =====
-- data/examples/discovery/main.rs: the client's round of discovery, from the replies that it
-- receives in its time window to the addresses that it notes.
use flip_flop_protocol.Common.{
  ℕ, suc, ◌+◌, ◌-◌, ◌≤◌, ◌<◌, ◌≡◌, refl, arith, Bool, true, false, ◌&&◌, ◌||◌, not, Option, none,
  some, List, [], ◌∷◌, ltb, leb, ◌==◌, if◌then◌else◌, length, get_or, replicate, Bool-cases, ◌⊎◌,
  inl, inr,
}
use flip_flop_protocol.Common.Words.{u8}
use flip_flop_protocol.Common.Outcome.{Outcome, returns, index, store, ◌>>=◌}
use flip_flop_protocol.Data.Discovery.{Identify, Identified, max_addresses, set_address}
use flip_flop_protocol.Data.Discovery.Members.{
  IsIdentify, member, with_address, set_address-with_address, with_address-IsIdentify,
  member-with_address,
}

-- A payload that arrives in the time window: `none` is one that `process_server_reply` refuses.
unfoldable pub count_reply : List ℕ × Bool → Option Identified → Outcome (List ℕ × Bool)
count_reply (addresses, finished) none = returns (addresses, false)
count_reply (addresses, finished) (some identified) = do
  count ← index addresses identified.server_address
  addresses' ← store addresses identified.server_address (count + 1)
  returns (addresses', finished)

unfoldable pub count_replies : List ℕ × Bool → List (Option Identified) → Outcome (List ℕ × Bool)
unfolding count_reply
count_replies counts [] = returns counts
count_replies counts (r ∷ rs) = do counts' ← count_reply counts r; count_replies counts' rs

-- `for (address, count) in addresses.iter().enumerate()`
unfoldable pub note_addresses : ℕ → List ℕ → Identify → Bool → Outcome (Identify × Bool)
note_addresses address [] identify finished = returns (identify, finished)
note_addresses address (count ∷ counts) identify finished =
    if count == 1
    then (set_address identify (u8 address) >>= λ identify'.
        note_addresses (address + 1) counts identify' finished)
    else note_addresses (address + 1) counts identify (if ltb 1 count then false else finished)

-- The round, once its request was sent.
unfoldable pub client_round : Identify → List (Option Identified) → Outcome (Identify × Bool)
unfolding count_replies note_addresses
client_round identify replies = do
  (addresses, finished) ← count_replies (replicate max_addresses 0, true) replies
  note_addresses 0 addresses identify finished

abbrev pub unique : List ℕ → Bool
unique [] = true
unique (c ∷ cs) = not (ltb 1 c) && unique cs

-- The bit field with the addresses that were counted once, without a step that may panic.
pub note_all : ℕ → List ℕ → Identify → Identify
note_all address [] identify = identify
note_all address (count ∷ counts) identify =
    if count == 1
    then note_all (address + 1) counts (with_address identify address)
    else note_all (address + 1) counts identify

Nat_cases : (a b : ℕ) → (a < b) ⊎ ((a ≡ b) ⊎ (b < a))
Nat_cases a b = ground arith

pub note_all-IsIdentify :
    (address : ℕ) (counts : List ℕ) (identify : Identify)
    → IsIdentify identify
    → IsIdentify (note_all address counts identify)
unfolding note_all
note_all-IsIdentify address [] identify v = v
note_all-IsIdentify address (count ∷ counts) identify v = elim (Bool-cases (count == 1)) [
  | inl t ↦ rw t (
      note_all-IsIdentify (address + 1) counts (with_address identify address)
        (with_address-IsIdentify address v))
  | inr t ↦ rw t (note_all-IsIdentify (address + 1) counts identify v)
]

finished_step :
    (count : ℕ) (finished rest : Bool)
    → ((if ltb 1 count then false else finished) && rest)
      ≡ (finished && (not (ltb 1 count) && rest))
finished_step count finished rest = ground arith

pub note_addresses-note_all :
    (address : ℕ) (counts : List ℕ) (identify : Identify) (finished : Bool)
    → IsIdentify identify
    → address + length counts ≤ max_addresses
    → note_addresses address counts identify finished
      ≡ returns (note_all address counts identify, finished && unique counts)
unfolding note_addresses note_all
note_addresses-note_all address [] identify finished v h = ground arith
note_addresses-note_all address (count ∷ counts) identify finished v h =
    let small : u8 address ≡ address = omega arith in
    elim (Bool-cases (count == 1)) [
      | inl t ↦
          let one : count ≡ 1 = ground arith in
          let rest =
            note_addresses-note_all (address + 1) counts (with_address identify address) finished
              (with_address-IsIdentify address v) (omega arith) in
          rw (one, small, set_address-with_address address v (omega arith)) rest
      | inr t ↦
          let rest =
            note_addresses-note_all (address + 1) counts identify
              (if ltb 1 count then false else finished) v (omega arith) in
          rw (t, rest, finished_step count finished (unique counts)) refl
    ]

-- Whether an address was counted once.
abbrev pub one_at : ℕ → List ℕ → ℕ → Bool
one_at address counts a = leb address a && (get_or counts (a - address) 0 == 1)

one_at-cons :
    (address : ℕ) (count : ℕ) (counts : List ℕ) (a : ℕ)
    → one_at address (count ∷ counts) a
      ≡ (if a == address then count == 1 else one_at (address + 1) counts a)
one_at-cons address count counts a = elim (Nat_cases a address) [
  | inl h ↦ ground arith
  | inr (inl e) ↦ let zero_behind : a - address ≡ 0 = omega arith in rw zero_behind (ground arith)
  | inr (inr h) ↦
      let behind : a - address ≡ suc (a - (address + 1)) = omega arith in rw behind (ground arith)
]

pub note_all-member :
    (address : ℕ) (counts : List ℕ) (identify : Identify) (a : ℕ)
    → IsIdentify identify
    → address + length counts ≤ max_addresses
    → member (note_all address counts identify) a ≡ (member identify a || one_at address counts a)
unfolding note_all
note_all-member address [] identify a v h = ground arith
note_all-member address (count ∷ counts) identify a v h = elim (Bool-cases (count == 1)) [
  | inl t ↦
      let rest =
        note_all-member (address + 1) counts (with_address identify address) a
          (with_address-IsIdentify address v) (omega arith) in
      let here = member-with_address address a v (omega arith) in
      rw (t, rest, here, one_at-cons address count counts a, t) (ground arith)
  | inr t ↦
      let rest = note_all-member (address + 1) counts identify a v (omega arith) in
      rw (t, rest, one_at-cons address count counts a, t) (ground arith)
]
