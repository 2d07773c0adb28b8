-- ===== src/Data/Discovery/Spare.antt =====
-- data/src/discovery.rs: the loop of `with_random_address` collects the addresses that are free.
use flip_flop_protocol.Common.{
  ℕ, zero, suc, ◌+◌, ◌-◌, ◌<◌, ◌≡◌, refl, ap, arith, true, false, List, [], ◌∷◌, ◌++◌, append_assoc,
  append-nil, length, length-append, replicate, set, get_elem?, some, Bool-cases, inl, inr,
}
use flip_flop_protocol.Common.Outcome.{returns, store}
use flip_flop_protocol.Data.Discovery.{Identify, max_addresses, spare_loop, iter, spare_fuel}
use flip_flop_protocol.Data.Discovery.Members.{IsIdentify, member}
use flip_flop_protocol.Data.Discovery.Free.{
  free_from, free_addresses, length-free_from, free_from-nil, free_from-taken, free_from-free,
}
use flip_flop_protocol.Data.Discovery.Iteration.{at, next-at, next-at_end, iter-at}

-- The array holds the free addresses so far, and zeros behind them.
abbrev padded : List ℕ → ℕ → List ℕ
padded xs m = xs ++ replicate m 0

get_elem?-padded : (xs : List ℕ) (m : ℕ) → get_elem? (padded xs (suc m)) (length xs) ≡ some 0
get_elem?-padded [] m = refl
get_elem?-padded (x ∷ xs) m = get_elem?-padded xs m

set-padded :
    (xs : List ℕ) (m v : ℕ) → set (padded xs (suc m)) (length xs) v ≡ padded (xs ++ v ∷ []) m
set-padded [] m v = refl
set-padded (x ∷ xs) m v = rw (set-padded xs m v)

-- `spare_addresses[j] = i` with room left.
store-padded :
    (xs : List ℕ) (m v : ℕ)
    → store (padded xs (suc m)) (length xs) v ≡ returns (padded (xs ++ v ∷ []) m)
store-padded xs m v = rw (get_elem?-padded xs m) (ap returns (set-padded xs m v))

spare_loop-taken :
    {id : Identify} (fuel p : ℕ) (spare : List ℕ) (j : ℕ)
    → IsIdentify id
    → p < max_addresses
    → member id p ≡ true
    → spare_loop (suc fuel) (at id p) p spare j ≡ spare_loop fuel (at id (p + 1)) (p + 1) spare j
unfolding spare_loop
spare_loop-taken {id} fuel p spare j v h taken = rw (next-at id p v h, taken)

spare_loop-free :
    {id : Identify} (fuel p : ℕ) (spare spare' : List ℕ) (j : ℕ)
    → IsIdentify id
    → p < max_addresses
    → member id p ≡ false
    → store spare j p ≡ returns spare'
    → spare_loop (suc fuel) (at id p) p spare j
      ≡ spare_loop fuel (at id (p + 1)) (p + 1) spare' (j + 1)
unfolding spare_loop
spare_loop-free {id} fuel p spare spare' j v h free stored = rw (next-at id p v h, free, stored)

spare_loop_end :
    (id : Identify) (fuel p i j : ℕ) (spare : List ℕ)
    → p ≡ max_addresses
    → spare_loop (suc fuel) (at id p) i spare j ≡ returns (spare, j)
unfolding spare_loop
spare_loop_end id fuel p i j spare e = rw (e, next-at_end id)

-- The loop at position `p`, with `n` addresses left and `xs` collected, ends with the free ones
-- among them behind `xs`; it writes within the array, and needs one round more than `n`.
pub spare_loop-at :
    {id : Identify} (n p fuel : ℕ) (xs : List ℕ) (c m : ℕ)
    → IsIdentify id
    → p + n ≡ max_addresses
    → n < fuel
    → c ≡ length (free_from id p n) + m
    → spare_loop fuel (at id p) p (padded xs c) (length xs)
      ≡ returns (padded (xs ++ free_from id p n) m, length (xs ++ free_from id p n))
spare_loop-at n p zero xs c m v e h room = absurd (omega arith)
spare_loop-at {id} zero p (suc fuel) xs c m v e h room =
    rw (spare_loop_end id fuel p p (length xs) (padded xs c) (omega arith)) (
      let nil = free_from-nil id p in
      let same : c ≡ m = omega (arith, ap length nil) in rw (same, nil, append-nil))
spare_loop-at {id} (suc n) p (suc fuel) xs c m v e h room = elim (Bool-cases (member id p)) [
  | inl taken ↦
      let free = free_from-taken id p n taken in
      rw (spare_loop-taken {id = id} fuel p (padded xs c) (length xs) v (omega arith) taken, free)
        (spare_loop-at n (p + 1) fuel xs c m v (omega arith) (omega arith) (rw free at room))
  | inr free ↦
      let rest = free_from id (p + 1) n in
      let list = free_from-free id p n free in
      let c' : c ≡ suc (length rest + m) = omega (arith, ap length list) in
      let ih =
        spare_loop-at n (p + 1) fuel (xs ++ p ∷ []) (length rest + m) m v (omega arith)
          (omega arith) refl in
      ground (
        arith,
        c',
        list,
        ih,
        append_assoc xs (p ∷ []) rest,
        length-append xs (p ∷ []),
        spare_loop-free {id = id} fuel p (padded xs c) (padded (xs ++ p ∷ []) (length rest + m))
            (length xs) v (omega arith) free (rw c' (store-padded xs (length rest + m) p)),
      )
]

-- The whole loop of `with_random_address`.
pub spare_loop-iter :
    {id : Identify}
    → IsIdentify id
    → let free = free_addresses id in
      spare_loop spare_fuel (iter id) 0 (replicate max_addresses 0) 0
      ≡ returns (free ++ replicate (max_addresses - length free) 0, length free)
spare_loop-iter {id} v = rw (iter-at id) (
    spare_loop-at max_addresses 0 spare_fuel [] max_addresses
      (max_addresses - length (free_addresses id)) v (omega arith) (omega arith)
      (omega (arith, length-free_from id 0 max_addresses)))
