-- ===== src/Data/Discovery/Iteration.antt =====
-- data/src/discovery.rs: `AddressesIter::next` walks through the 256 addresses in order.
use flip_flop_protocol.Common.{
  ℕ, zero, suc, ◌+◌, ◌/◌, ◌%◌, ◌^◌, ◌<◌, ◌≡◌, refl, arith, inl, inr, Bool, List, [], ◌∷◌, lt→ltb,
  ◌==◌, ==_of_ne, Bool-cases, if◌then◌else◌, none, some,
}
use flip_flop_protocol.Common.Outcome.{Outcome, returns, out_of_fuel, index-eq-get_or, ◌>>=◌}
use native.Mathlib.Decide.{ℕ_discrete}
use native.Mathlib.Nat.{one-le-pow}
use flip_flop_protocol.Data.Discovery.{
  Identify, AddressesIter, is_address_set, iter, next, max_addresses, min_payload_size, shl_u8,
}
use flip_flop_protocol.Data.Discovery.Members.{IsIdentify, member, test_bit, is_address_set-member}

-- The iterator when `p` items have been taken.
pub at : Identify → ℕ → AddressesIter
at id p = record { i = p / 8; j = 2 ^ (p % 8); addresses = id.addresses }

pub iter-at : (id : Identify) → iter id ≡ at id 0
unfolding iter at
iter-at id = refl

-- `self.j <<= 1` on a single bit.
shl_bit : (k : ℕ) → k < 8 → shl_u8 (2 ^ k) 1 ≡ (if k == 7 then 0 else 2 ^ (k + 1))
shl_bit zero h = refl
shl_bit (suc zero) h = refl
shl_bit (suc (suc zero)) h = refl
shl_bit (suc (suc (suc zero))) h = refl
shl_bit (suc (suc (suc (suc zero)))) h = refl
shl_bit (suc (suc (suc (suc (suc zero))))) h = refl
shl_bit (suc (suc (suc (suc (suc (suc zero)))))) h = refl
shl_bit (suc (suc (suc (suc (suc (suc (suc zero))))))) h = refl
shl_bit (suc (suc (suc (suc (suc (suc (suc (suc k)))))))) h = absurd (omega arith)

-- The iterator's fields move on together.
at-suc :
    (id : Identify) (p : ℕ)
    → at id (p + 1) ≡ (
        if p % 8 == 7
        then record { i = p / 8 + 1; j = 1; addresses = id.addresses }
        else record { i = p / 8; j = 2 ^ (p % 8 + 1); addresses = id.addresses })
unfolding at
at-suc id p = elim (ℕ_discrete (p % 8) 7) [
  | yes e ↦
      let i' : (p + 1) / 8 ≡ p / 8 + 1 = omega arith in
      let k' : (p + 1) % 8 ≡ 0 = omega arith in rw (i', k', e)
  | no ne ↦
      let i' : (p + 1) / 8 ≡ p / 8 = omega arith in
      let k' : (p + 1) % 8 ≡ p % 8 + 1 = omega arith in rw (i', k', ==_of_ne (p % 8) 7 ne)
]

-- While an address is left, `next` returns its membership and moves on by one.
pub next-at :
    (id : Identify) (p : ℕ)
    → IsIdentify id
    → p < max_addresses
    → next (at id p) ≡ returns (some (member id p), at id (p + 1))
unfolding next at member
next-at id p v h =
    rw
      (
        lt→ltb (p / 8) min_payload_size (omega arith),
        index-eq-get_or id.addresses (p / 8) 0 (omega (arith, v.size)),
        test_bit (p % 8),
        shl_bit (p % 8) (omega arith),
        at-suc id p,
      )
      (elim (Bool-cases (p % 8 == 7)) [
        | inl e ↦ rw e
        | inr e ↦ rw (e, ==_of_ne (2 ^ (p % 8 + 1)) 0 (omega (arith, one-le-pow (p % 8 + 1) 2)))
      ])

-- After the last address the iterator is finished, and stays so.
pub next-at_end : (id : Identify) → next (at id max_addresses) ≡ returns (none, at id max_addresses)
unfolding next at
next-at_end id = refl

-- All the items that an iterator yields, on fuel.
pub drain : ℕ → AddressesIter → Outcome (List Bool)
drain zero it = out_of_fuel
drain (suc fuel) it = do
  (item, it') ← next it
  elim item [ none ↦ returns [] | some b ↦ drain fuel it' >>= λ rest. returns (b ∷ rest) ]

-- `is_address_set` at `n` addresses from `p` on.
pub check_from : Identify → ℕ → ℕ → Outcome (List Bool)
check_from id p zero = returns []
check_from id p (suc n) = do
  b ← is_address_set id p
  rest ← check_from id (p + 1) n
  returns (b ∷ rest)

drain-at :
    {id : Identify} (n p fuel : ℕ)
    → IsIdentify id
    → p + n ≡ max_addresses
    → n < fuel
    → drain fuel (at id p) ≡ check_from id p n
unfolding drain check_from
drain-at n p zero v e h = absurd (omega arith)
drain-at {id} zero p (suc fuel) v e h =
    let end : p ≡ max_addresses = omega arith in rw (end, next-at_end id)
drain-at {id} (suc n) p (suc fuel) v e h = rw (
  next-at id p v (omega arith),
  is_address_set-member p v (omega arith),
  drain-at n (p + 1) fuel v (omega arith) (omega arith),
)

-- The iterator yields what `is_address_set` says of the addresses 0 to 255, in order, and ends.
pub drain-iter :
    {id : Identify} (fuel : ℕ)
    → IsIdentify id
    → max_addresses < fuel
    → drain fuel (iter id) ≡ check_from id 0 max_addresses
drain-iter {id} fuel v h = rw (iter-at id) (drain-at max_addresses 0 fuel v (omega arith) h)
