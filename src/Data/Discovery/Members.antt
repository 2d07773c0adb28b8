-- ===== src/Data/Discovery/Members.antt =====
-- data/src/discovery.rs: `is_address_set` and `set_address` on a bit field of 32 bytes.
use flip_flop_protocol.Common.{
  ℕ, zero, suc, ◌/◌, ◌%◌, ◌^◌, ◌<◌, ◌≤◌, ◌≡◌, refl, arith, ◌⊎◌, inl, inr, Bool, true, not, bit_and,
  bit_or, lt→ltb, ◌==◌, if◌then◌else◌, length, length-set, get_or, set, get_or-set_self,
  get_or-set_ne, get_or-All, set-All, All,
}
use flip_flop_protocol.Common.Words.{IsByte, bit, bit_and_pow, bit-bit_or, bit-pow, bit_or-lt}
use flip_flop_protocol.Common.Outcome.{returns, index-eq-get_or}
use flip_flop_protocol.Data.Discovery.{
  Identify, max_addresses, min_payload_size, is_address_set, set_address, shl_u8,
}
use native.Mathlib.Nat.{pow-le-pow_right, one-le-pow}

-- What the type `[u8; MIN_PAYLOAD_SIZE]` says.
pub record IsIdentify (id : Identify) : Type 0 where
  pub size : length id.addresses ≡ min_payload_size
  pub bytes : All IsByte id.addresses

unfoldable pub byte_at : Identify → ℕ → ℕ
byte_at id i = get_or id.addresses i 0

-- The bit field as a set of addresses.
unfoldable pub member : Identify → ℕ → Bool
unfolding byte_at
member id address = bit (address % 8) (byte_at id (address / 8)) == 1

pub pow-le-128 : (k : ℕ) → k < 8 → 2 ^ k ≤ 128
pow-le-128 k h = pow-le-pow_right {n = 2} (omega arith) {i = k} {j = 7} (omega arith)

pub shl_u8_one : (k : ℕ) → k < 8 → shl_u8 1 k ≡ 2 ^ k
shl_u8_one k h = omega (arith, pow-le-128 k h)

pub byte_at-IsByte : {id : Identify} (i : ℕ) → IsIdentify id → IsByte (byte_at id i)
unfolding byte_at
byte_at-IsByte {id} i v = get_or-All IsByte id.addresses i 0 v.bytes (omega arith)

-- The test that the code makes on a byte.
pub test_bit : (k b : ℕ) → not (bit_and b (2 ^ k) == 0) ≡ (bit k b == 1)
test_bit k b = elim (bit_cases (bit k b) (omega arith)) [
  | inl e ↦ rw (bit_and_pow k b, e) (ground arith)
  | inr e ↦ rw (bit_and_pow k b, e) (ground (arith, one-le-pow k 2))
]
  where
    bit_cases : (n : ℕ) → n < 2 → (n ≡ 0) ⊎ (n ≡ 1)
    bit_cases zero h = inl refl
    bit_cases (suc zero) h = inr refl
    bit_cases (suc (suc n)) h = absurd (omega arith)

-- `is_address_set` does not panic, and reads the set.
pub is_address_set-member :
    {id : Identify} (a : ℕ)
    → IsIdentify id
    → a < max_addresses
    → is_address_set id a ≡ returns (member id a)
unfolding is_address_set member byte_at
is_address_set-member {id} a v h = rw (
  lt→ltb a max_addresses h,
  index-eq-get_or id.addresses (a / 8) 0 (omega (arith, v.size)),
  shl_u8_one (a % 8) (omega arith),
  test_bit (a % 8),
)

-- What `set_address` makes of the bit field.
pub with_address : Identify → ℕ → Identify
unfolding byte_at
with_address id a = record {
  addresses = set id.addresses (a / 8) (bit_or (byte_at id (a / 8)) (2 ^ (a % 8)));
}

pub set_address-with_address :
    {id : Identify} (a : ℕ)
    → IsIdentify id
    → a < max_addresses
    → set_address id a ≡ returns (with_address id a)
unfolding set_address with_address
set_address-with_address {id} a v h = rw (
  lt→ltb a max_addresses h,
  index-eq-get_or id.addresses (a / 8) 0 (omega (arith, v.size)),
  shl_u8_one (a % 8) (omega arith),
)

pub with_address-IsIdentify :
    {id : Identify} (a : ℕ) → IsIdentify id → IsIdentify (with_address id a)
unfolding with_address
with_address-IsIdentify {id} a v =
    let old = byte_at id (a / 8) in
    let fits =
      bit_or-lt 8 old (2 ^ (a % 8)) (byte_at-IsByte (a / 8) v)
        (omega (arith, pow-le-128 (a % 8) (omega arith))) in
    record {
      size = omega (arith, v.size, length-set id.addresses (a / 8) (bit_or old (2 ^ (a % 8))));
      bytes = set-All IsByte id.addresses (a / 8) _ v.bytes fits;
    }

-- The set gains the one address.
pub member-with_address :
    {id : Identify} (a b : ℕ)
    → IsIdentify id
    → a < max_addresses
    → member (with_address id a) b ≡ (if b == a then true else member id b)
unfolding member with_address byte_at
member-with_address {id} a b v h =
    let new = bit_or (byte_at id (a / 8)) (2 ^ (a % 8)) in
    ground (
      arith,
      v.size,
      get_or-set_self id.addresses (a / 8) new 0 (omega (arith, v.size)),
      get_or-set_ne id.addresses (a / 8) (b / 8) new 0,
      bit-bit_or (b % 8) (byte_at id (a / 8)) (2 ^ (a % 8)),
      bit-pow (b % 8) (a % 8),
    )

-- On a bit field of 32 bytes `set_address` does not panic and keeps the field's shape, and
-- afterwards `is_address_set` is true of that address and as before of every other.
pub is_address_set-set_address :
    {id : Identify} (a b : ℕ)
    → IsIdentify id
    → a < max_addresses
    → b < max_addresses
    → (id' : Identify) × (set_address id a ≡ returns id')
      × IsIdentify id'
      × (is_address_set id' b ≡ (if b == a then returns true else is_address_set id b))
is_address_set-set_address {id} a b v ha hb =
    let v' = with_address-IsIdentify a v in
    (
      with_address id a,
      set_address-with_address a v ha,
      v',
      ground (
        arith,
        is_address_set-member b v hb,
        is_address_set-member {id = with_address id a} b v' hb,
        member-with_address a b v ha,
      ),
    )
