-- ===== src/Common/Integers.antt =====
-- Signed integers over the native numbers, and Rust's `i32` with its checked arithmetic.
use Prim.Native.Nat.{ℕ, ◌+◌, ◌-◌, ◌^◌, ◌≤◌, ◌<◌}
use mathlib.Core.Path.{◌≡◌, refl}
use mathlib.Core.Bool.{Bool, false}
use native.Mathlib.Omega.{arith}
use flip_flop_protocol.Common.Tests.{leb, ltb, lt→ltb, if◌then◌else◌}
use flip_flop_protocol.Common.Outcome.{Outcome, returns, panics}

-- `negsuc n` is `-(n + 1)`.
pub data ℤ : Type 0 where
  pos : ℕ → ℤ
  negsuc : ℕ → ℤ

abbrev pub sub_nat : ℕ → ℕ → ℤ
sub_nat m n = if leb n m then pos (m - n) else negsuc (n - m - 1)

infixl 65 ◌+ℤ◌ ◌-ℤ◌
abbrev pub ◌+ℤ◌ : ℤ → ℤ → ℤ
pos m +ℤ pos n = pos (m + n)
pos m +ℤ negsuc n = sub_nat m (n + 1)
negsuc m +ℤ pos n = sub_nat n (m + 1)
negsuc m +ℤ negsuc n = negsuc (m + n + 1)

abbrev pub ◌-ℤ◌ : ℤ → ℤ → ℤ
pos m -ℤ pos n = sub_nat m n
pos m -ℤ negsuc n = pos (m + n + 1)
negsuc m -ℤ pos n = negsuc (m + n)
negsuc m -ℤ negsuc n = sub_nat (n + 1) (m + 1)

-- What an `i32` holds.
abbrev pub fits_i32 : ℤ → Bool
fits_i32 (pos n) = ltb n (2 ^ 31)
fits_i32 (negsuc n) = ltb n (2 ^ 31)

-- Arithmetic on `i32` panics where the result does not fit.
abbrev pub checked : ℤ → Outcome ℤ
checked n = if fits_i32 n then returns n else panics

abbrev pub is_positive : ℤ → Bool
is_positive (pos n) = ltb 0 n
is_positive (negsuc n) = false

pub checked-pos : (n : ℕ) → n < 2 ^ 31 → checked (pos n) ≡ returns (pos n)
checked-pos n h = rw (lt→ltb n (2 ^ 31) h) refl

pub sub-pos : (m n : ℕ) → n ≤ m → (pos m -ℤ pos n) ≡ pos (m - n)
sub-pos m n h = ground arith
