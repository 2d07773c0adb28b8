-- ===== src/Data/Discovery/Free.antt =====
-- The free addresses of a bit field: those that are not set, as a list.
use flip_flop_protocol.Common.{
  ℕ, zero, suc, ◌+◌, ◌≤◌, ◌<◌, ◌≡◌, refl, arith, true, false, List, [], ◌∷◌, length, get_or,
  if◌then◌else◌, Bool-cases, inl, inr,
}
use native.Mathlib.Decide.{ℕ_discrete}
use flip_flop_protocol.Data.Discovery.{Identify, max_addresses}
use flip_flop_protocol.Data.Discovery.Members.{member}

-- The free addresses among `n` from `p` on, in order.
pub free_from : Identify → ℕ → ℕ → List ℕ
free_from id p zero = []
free_from id p (suc n) = let rest = free_from id (p + 1) n in if member id p then rest else p ∷ rest

abbrev pub free_addresses : Identify → List ℕ
free_addresses id = free_from id 0 max_addresses

pub length-free_from : (id : Identify) (p n : ℕ) → length (free_from id p n) ≤ n
unfolding free_from
length-free_from id p zero = omega arith
length-free_from id p (suc n) = ground (arith, length-free_from id (p + 1) n)

pub free_from-nil : (id : Identify) (p : ℕ) → free_from id p zero ≡ []
unfolding free_from
free_from-nil id p = refl

pub free_from-taken :
    (id : Identify) (p n : ℕ) → member id p ≡ true → free_from id p (suc n) ≡ free_from id (p + 1) n
unfolding free_from
free_from-taken id p n h = rw h

pub free_from-free :
    (id : Identify) (p n : ℕ)
    → member id p ≡ false
    → free_from id p (suc n) ≡ p ∷ free_from id (p + 1) n
unfolding free_from
free_from-free id p n h = rw h

-- Each entry of the list is an address in range that is not set.
pub free_from_sound :
    (id : Identify) (n p k : ℕ)
    → k < length (free_from id p n)
    → let a = get_or (free_from id p n) k 0 in (p ≤ a) × (a < p + n) × (member id a ≡ false)
unfolding free_from
free_from_sound id zero p k h = absurd (omega arith)
free_from_sound id (suc n) p zero h = ground (arith, free_from_sound id n (p + 1) zero)
free_from_sound id (suc n) p (suc k) h =
    ground (arith, free_from_sound id n (p + 1) (suc k), free_from_sound id n (p + 1) k)

-- Each address in range that is not set is an entry of the list.
pub free_from_complete :
    (id : Identify) (n p a : ℕ)
    → p ≤ a
    → a < p + n
    → member id a ≡ false
    → (k : ℕ) × (k < length (free_from id p n)) × (get_or (free_from id p n) k 0 ≡ a)
free_from_complete id zero p a lo hi free = absurd (omega arith)
free_from_complete id (suc n) p a lo hi free = elim (Bool-cases (member id p)) [
  | inl taken ↦
      rw (free_from-taken id p n taken)
        (free_from_complete id n (p + 1) a (later taken) (omega arith) free)
  | inr here ↦ rw (free_from-free id p n here) (elim (ℕ_discrete p a) [
    | yes e ↦ (0, omega arith, e)
    | no ne ↦
        let (k, lt, eq) = free_from_complete id n (p + 1) a (omega arith) (omega arith) free in
        (suc k, omega arith, eq)
  ])
]
  where
    later : member id p ≡ true → p + 1 ≤ a
    later taken = elim (ℕ_discrete p a) [ yes e ↦ absurd (ground arith) | no ne ↦ omega arith ]
