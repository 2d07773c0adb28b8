-- ===== src/Data/Discovery/Choice.antt =====
-- data/src/discovery.rs: the address that `with_random_address` picks.
use flip_flop_protocol.Common.{
  ℕ, zero, suc, ◌-◌, ◌%◌, ◌^◌, ◌<◌, ◌≡◌, ◌↔◌, refl, ap, ◌∙◌, arith, false, List, [], ◌∷◌, ◌++◌,
  length, replicate, get_or, if◌then◌else◌, Option, none, some, ltb, lt→ltb, ltb_of_le,
}
use native.Mathlib.Decide.{dec_lt}
use native.Mathlib.Nat.{mod-eq_of_lt}
use flip_flop_protocol.Common.Words.{u8}
use flip_flop_protocol.Common.Outcome.{returns, index}
use flip_flop_protocol.Data.Discovery.{
  Identify, Identified, Rng, rng_fixture, max_addresses, iter, with_random_address, is_address_set,
}
use flip_flop_protocol.Data.Discovery.Members.{IsIdentify, member, is_address_set-member}
use flip_flop_protocol.Data.Discovery.Free.{
  free_addresses, length-free_from, free_from_sound, free_from_complete,
}
use flip_flop_protocol.Data.Discovery.Spare.{spare_loop-iter}

index-append :
    (xs ys : List ℕ) (k : ℕ) → k < length xs → index (xs ++ ys) k ≡ returns (get_or xs k 0)
index-append [] ys k h = absurd (omega arith)
index-append (x ∷ xs) ys zero h = refl
index-append (x ∷ xs) ys (suc k) h = index-append xs ys k (omega arith)

module _ {R : Type 0} (g : Rng R) where
  -- `with_random_address` in terms of the list of free addresses.
  pub with_random_address-free :
      {id : Identify} (rng : R) (server_ports : ℕ)
      → IsIdentify id
      → let free = free_addresses id in
        with_random_address g (iter id) rng server_ports
        ≡ returns (
            if ltb 0 (length free)
            then (
              some (record {
                server_address = get_or free ((g.next_u32 rng).0 % length free) 0;
                server_ports = server_ports;
              }),
              (g.next_u32 rng).1,
            )
            else (none, rng))
  unfolding with_random_address
  with_random_address-free {id} rng server_ports v =
      rw (spare_loop-iter v) (elim (dec_lt 0 (length free)) [
        | yes some_free ↦
            let (lo, hi, unset) = free_from_sound id max_addresses 0 k (omega arith) in
            let fits : u8 (get_or free k 0) ≡ get_or free k 0 = omega arith in
            rw (lt→ltb 0 (length free) some_free, index-append free zeros k (omega arith), fits)
        | no none_free ↦ rw (ltb_of_le 0 (length free) (omega arith))
      ])
    where
      free : List ℕ
      free = free_addresses id

      zeros : List ℕ
      zeros = replicate (max_addresses - length free) 0

      k : ℕ
      k = (g.next_u32 rng).0 % length free

unset-member :
    {id : Identify} (a : ℕ)
    → IsIdentify id
    → a < max_addresses
    → (is_address_set id a ≡ returns false) ↔ (member id a ≡ false)
unset-member {id} a v h = (
  λ e. ground (arith, is_address_set-member a v h),
  λ e. is_address_set-member a v h ∙ ap returns e,
)

module _ {R : Type 0} (g : Rng R) where
  -- What `with_random_address` returns is an address that is not set in the bit field, with the
  -- ports that it was given.
  pub with_random_address-unset :
      {id : Identify} (rng : R) (server_ports : ℕ) {x : Identified} {rng' : R}
      → IsIdentify id
      → with_random_address g (iter id) rng server_ports ≡ returns (some x, rng')
      → (x.server_address < max_addresses)
        × (is_address_set id x.server_address ≡ returns false)
        × (x.server_ports ≡ server_ports)
  with_random_address-unset {id} rng server_ports {x} v e = elim (dec_lt 0 (length free)) [
    | yes some_free ↦
        let (lo, hi, unset) = free_from_sound id max_addresses 0 k (omega arith) in
        let set_test = (unset-member (get_or free k 0) v hi).1 unset in
        ground (arith, with_random_address-free g rng server_ports v)
    | no none_free ↦ absurd (ground (arith, with_random_address-free g rng server_ports v))
  ]
    where
      free : List ℕ
      free = free_addresses id

      k : ℕ
      k = (g.next_u32 rng).0 % length free

  -- `with_random_address` always returns. It returns an address exactly when one is not set.
  pub with_random_address-some_iff :
      {id : Identify} (rng : R) (server_ports : ℕ)
      → IsIdentify id
      → ((r : Option Identified × R) × (with_random_address g (iter id) rng server_ports
            ≡ returns r))
        × (((x : Identified) × (rng' : R) × (with_random_address g (iter id) rng server_ports
                ≡ returns (some x, rng')))
            ↔ ((a : ℕ) × (a < max_addresses) × (is_address_set id a ≡ returns false)))
  with_random_address-some_iff {id} rng server_ports v = (
    (_, with_random_address-free g rng server_ports v),
    (
      λ (x, rng', e).
          let (hi, unset, same) = with_random_address-unset rng server_ports v e in
          (x.server_address, hi, unset),
      λ (a, hi, unset).
          let (k, lt, eq) =
            free_from_complete id max_addresses 0 a (omega arith) hi
              ((unset-member a v hi).0 unset) in
          (
            record {
              server_address =
                  get_or (free_addresses id) ((g.next_u32 rng).0 % length (free_addresses id)) 0;
              server_ports = server_ports;
            },
            (g.next_u32 rng).1,
            with_random_address-free g rng server_ports v
                ∙ ap returns (rw (lt→ltb 0 (length (free_addresses id)) (omega arith))),
          ),
    ),
  )

-- Every address that is not set can be drawn: some value of the generator makes
-- `with_random_address` return it. Address 0 is no exception.
pub with_random_address-every_unset :
    {id : Identify} (a server_ports : ℕ)
    → IsIdentify id
    → a < max_addresses
    → is_address_set id a ≡ returns false
    → (drawn : ℕ) × (drawn < 2 ^ 32)
      × (with_random_address rng_fixture (iter id) drawn server_ports
          ≡ returns (some (record { server_address = a; server_ports = server_ports }), drawn))
with_random_address-every_unset {id} a server_ports v h unset =
    let (k, lt, eq) =
      free_from_complete id max_addresses 0 a (omega arith) h ((unset-member a v h).0 unset) in
    let free = free_addresses id in
    let few = length-free_from id 0 max_addresses in
    let same : k % length free ≡ k = mod-eq_of_lt lt in
    (
      k,
      omega arith,
      with_random_address-free rng_fixture k server_ports v
          ∙ ap returns (rw (lt→ltb 0 (length free) (omega arith), same, eq)),
    )
