-- ===== src/Common/Words.antt =====
-- Rust's unsigned words as native numbers, with their wrap-around written out, and bitwise
-- operations as arithmetic.
use Prim.Native.Nat.{
  ℕ, zero, suc, ◌+◌, ◌*◌, ◌/◌, ◌%◌, ◌^◌, ◌≤◌, ◌<◌, ◌-◌, min, max, bit_and, bit_or,
}
use Prim.Native.Nat.{digits, bitwise, bit_and-bitwise, bit_or-bitwise}
use mathlib.Core.Path.{◌≡◌, refl, ap}
use mathlib.Core.WellFounded.{Acc, WellFounded}
use mathlib.Core.Logic.{◌⊎◌, inl, inr}
use native.Mathlib.Nat.{le_refl, pow-suc, one-le-pow, div-div-eq-div-mul, zero-div}
use flip_flop_protocol.Common.Tests.{◌==◌, if◌then◌else◌}
use native.Mathlib.Omega.{arith}

-- `as u8`, `as u16`, `as u32`
abbrev pub u8 : ℕ → ℕ
u8 n = n % 2 ^ 8

abbrev pub u16 : ℕ → ℕ
u16 n = n % 2 ^ 16

abbrev pub u32 : ℕ → ℕ
u32 n = n % 2 ^ 32

-- `x << k` on a `u32`, and `x >> k`.
infixl 72 ◌<<◌ ◌>>>◌
abbrev pub ◌<<◌ : ℕ → ℕ → ℕ
x << k = u32 (x * 2 ^ k)

abbrev pub ◌>>>◌ : ℕ → ℕ → ℕ
x >>> k = x / 2 ^ k

abbrev pub IsByte : ℕ → Type 0
IsByte b = b < 2 ^ 8

acc_below : (k n : ℕ) → n < k → Acc ◌<◌ n
acc_below zero n h = absurd (omega arith)
acc_below (suc k) n h = Acc.intro n (λ m hm. acc_below k m (omega arith))

pub lt_wf : WellFounded ◌<◌
lt_wf = record { apply = λ n. acc_below (suc n) n (le_refl _) }

decide_zero : (x : ℕ) → (x ≡ 0) ⊎ (0 < x)
decide_zero zero = inl refl
decide_zero (suc x) = inr (omega arith)

-- `digits` halves its first operand in each round, so rounds beyond that operand change nothing.
digits_settle :
    (stop : ℕ → ℕ) (digit : ℕ → ℕ → ℕ) (rounds : ℕ) (x y : ℕ)
    → x ≤ rounds
    → digits stop digit (suc rounds) x y ≡ digits stop digit rounds x y
digits_settle stop digit zero x y h = let x_zero : x ≡ 0 = omega arith in rw x_zero refl
digits_settle stop digit (suc rounds) zero y h = refl
digits_settle stop digit (suc rounds) (suc x) y h =
    rw (digits_settle stop digit rounds (suc x / 2) (y / 2) (omega arith))

digits_enough :
    (stop : ℕ → ℕ) (digit : ℕ → ℕ → ℕ) (extra rounds x y : ℕ)
    → rounds ≡ extra + x
    → digits stop digit rounds x y ≡ bitwise stop digit x y
digits_enough stop digit zero rounds x y e = let same : rounds ≡ x = omega arith in rw same refl
digits_enough stop digit (suc extra) rounds x y e =
    let more : rounds ≡ suc (extra + x) = omega arith in
    rw (
      more,
      digits_settle stop digit (extra + x) x y (omega arith),
      digits_enough stop digit extra (extra + x) x y refl,
    )

-- What is left of a number after its half is taken is the number of extra rounds.
bitwise-digit :
    (stop : ℕ → ℕ) (digit : ℕ → ℕ → ℕ) (x y : ℕ)
    → bitwise stop digit (suc x) y
      ≡ bitwise stop digit (suc x / 2) (y / 2) * 2 + digit (suc x % 2) (y % 2)
bitwise-digit stop digit x y =
    let half = suc x / 2 in
    omega (arith, digits_enough stop digit (x - half) x half (y / 2) (omega arith))

-- The lowest digit of a result and the digits above it.
pub bit_or_step : (x y : ℕ) → bit_or x y ≡ bit_or (x / 2) (y / 2) * 2 + max (x % 2) (y % 2)
bit_or_step zero y = rw (bit_or-bitwise 0 y, bit_or-bitwise 0 (y / 2)) (omega arith)
bit_or_step (suc x) y =
    rw (bit_or-bitwise (suc x) y, bit_or-bitwise (suc x / 2) (y / 2)) (bitwise-digit _ max x y)

pub bit_and_step : (x y : ℕ) → bit_and x y ≡ bit_and (x / 2) (y / 2) * 2 + min (x % 2) (y % 2)
bit_and_step zero y = rw (bit_and-bitwise 0 y, bit_and-bitwise 0 (y / 2)) (omega arith)
bit_and_step (suc x) y =
    rw (bit_and-bitwise (suc x) y, bit_and-bitwise (suc x / 2) (y / 2)) (bitwise-digit _ min x y)

zero-bit_or : (y : ℕ) → bit_or 0 y ≡ y
zero-bit_or y = rw (bit_or-bitwise 0 y) refl

-- A zero on the right, for the numbers below a bound.
bit_or-zero_below : (bound x : ℕ) → x < bound → bit_or x 0 ≡ x
bit_or-zero_below zero x h = absurd (omega arith)
bit_or-zero_below (suc bound) x h = elim (decide_zero x) [
  | inl e ↦ rw e refl
  | inr e ↦ omega (arith, bit_or_step x 0, bit_or-zero_below bound (x / 2) (omega arith))
]

bit_and-zero_below : (bound x : ℕ) → x < bound → bit_and x 0 ≡ 0
bit_and-zero_below zero x h = absurd (omega arith)
bit_and-zero_below (suc bound) x h = elim (decide_zero x) [
  | inl e ↦ rw e refl
  | inr e ↦ omega (arith, bit_and_step x 0, bit_and-zero_below bound (x / 2) (omega arith))
]

mul-two-pow-suc : (high k : ℕ) → high * 2 ^ suc k ≡ high * 2 ^ k * 2
mul-two-pow-suc high k =
    let scaled = ap (λ (power : ℕ). high * power) (pow-suc 2 k) in omega (arith, scaled)

pub div-two-pow-suc : (a k : ℕ) → a / 2 ^ suc k ≡ a / 2 / 2 ^ k
div-two-pow-suc a k =
    rw (div-div-eq-div-mul a 2 (2 ^ k)) (ap (λ (t : ℕ). a / t) (omega (arith, pow-suc 2 k)))

mod-two-pow-suc : (x k : ℕ) → x % 2 ^ suc k ≡ x / 2 % 2 ^ k * 2 + x % 2
mod-two-pow-suc x k = ground (
  arith,
  div-two-pow-suc x k,
  mul-two-pow-suc (x / 2 / 2 ^ k) k,
  one-le-pow k 2,
  one-le-pow (suc k) 2,
)

-- `(high << k) | low` and `low | (high << k)` are sums when `low` fits `k` bits.
pub bit_or_fields : (k high low : ℕ) → low < 2 ^ k → bit_or (high * 2 ^ k) low ≡ high * 2 ^ k + low
bit_or_fields zero high low fits = ground (arith, bit_or-zero_below (suc high) high (omega arith))
bit_or_fields (suc k) high low fits =
    let upper = bit_or_fields k high (low / 2) (omega (arith, pow-suc 2 k)) in
    let doubled = mul-two-pow-suc high k in
    ground (arith, bit_or_step (high * 2 ^ suc k) low, doubled, upper)

pub bit_or_low : (k high low : ℕ) → low < 2 ^ k → bit_or low (high * 2 ^ k) ≡ low + high * 2 ^ k
bit_or_low zero high low fits = ground (arith, zero-bit_or high)
bit_or_low (suc k) high low fits =
    let upper = bit_or_low k high (low / 2) (omega (arith, pow-suc 2 k)) in
    let doubled = mul-two-pow-suc high k in
    ground (arith, bit_or_step low (high * 2 ^ suc k), doubled, upper)

-- A mask of `k` low bits is the remainder by `2 ^ k`.
pub bit_and_mask : (k x : ℕ) → bit_and x (2 ^ k - 1) ≡ x % 2 ^ k
bit_and_mask zero x = ground (arith, bit_and-zero_below (suc x) x (omega arith))
bit_and_mask (suc k) x =
    let mask_half : (2 ^ suc k - 1) / 2 ≡ 2 ^ k - 1 = omega (arith, pow-suc 2 k, one-le-pow k 2) in
    let mask_odd : (2 ^ suc k - 1) % 2 ≡ 1 = omega (arith, pow-suc 2 k, one-le-pow k 2) in
    let halved : x % 2 ^ suc k ≡ x / 2 % 2 ^ k * 2 + x % 2 = mod-two-pow-suc x k in
    ground
      (arith, bit_and_step x (2 ^ suc k - 1), mask_half, mask_odd, halved, bit_and_mask k (x / 2))

-- A mask that starts at bit `k`.
pub bit_and_shifted : (k a m : ℕ) → bit_and a (m * 2 ^ k) ≡ bit_and (a / 2 ^ k) m * 2 ^ k
bit_and_shifted zero a m = ground arith
bit_and_shifted (suc k) a m = ground (
  arith,
  bit_and_step a (m * 2 ^ suc k),
  mul-two-pow-suc m k,
  mul-two-pow-suc (bit_and (a / 2 / 2 ^ k) m) k,
  div-two-pow-suc a k,
  bit_and_shifted k (a / 2) m,
)

-- `r | x` and `x | r` where `x` is a multiple of `2 ^ k` above `r`.
pub bit_or_above : (k q r x : ℕ) → r < 2 ^ k → x ≡ q * 2 ^ k → bit_or r x ≡ r + x
bit_or_above k q r x h e = rw e (bit_or_low k q r h)

pub bit_or_below : (k q r x : ℕ) → r < 2 ^ k → x ≡ q * 2 ^ k → bit_or x r ≡ x + r
bit_or_below k q r x h e = rw e (bit_or_fields k q r h)

-- Single bits.
abbrev pub bit : ℕ → ℕ → ℕ
bit k a = a / 2 ^ k % 2

pub bit_and_pow : (k a : ℕ) → bit_and a (2 ^ k) ≡ bit k a * 2 ^ k
bit_and_pow k a = ground (arith, bit_and_shifted k a 1, bit_and_mask 1 (a / 2 ^ k))

pub bit-bit_or : (k a b : ℕ) → bit k (bit_or a b) ≡ max (bit k a) (bit k b)
bit-bit_or zero a b = omega (arith, bit_or_step a b)
bit-bit_or (suc k) a b = ground (
  arith,
  bit_or_step a b,
  div-two-pow-suc (bit_or a b) k,
  div-two-pow-suc a k,
  div-two-pow-suc b k,
  bit-bit_or k (a / 2) (b / 2),
)

pub bit-pow : (k j : ℕ) → bit k (2 ^ j) ≡ (if k == j then 1 else 0)
bit-pow zero zero = refl
bit-pow zero (suc j) = ground (arith, pow-suc 2 j)
bit-pow (suc k) zero = ground (arith, div-two-pow-suc 1 k, zero-div (2 ^ k))
bit-pow (suc k) (suc j) = ground (arith, div-two-pow-suc (2 ^ suc j) k, pow-suc 2 j, bit-pow k j)

-- No bit is set above those of the operands.
pub bit_or-lt : (k a b : ℕ) → a < 2 ^ k → b < 2 ^ k → bit_or a b < 2 ^ k
bit_or-lt zero a b ha hb =
    let a_zero : a ≡ 0 = omega arith in
    let b_zero : b ≡ 0 = omega arith in rw (a_zero, b_zero) (omega arith)
bit_or-lt (suc k) a b ha hb =
    let half = pow-suc 2 k in
    let rest = bit_or-lt k (a / 2) (b / 2) (omega arith) (omega arith) in
    omega (arith, bit_or_step a b)
