-- ===== src/Common/Outcome.antt =====
-- A Rust computation that returns or panics. `out_of_fuel` is no Rust outcome: a loop of the model
-- was given too few rounds.
use Prim.Native.Nat.{ℕ, ◌<◌}
use mathlib.Core.Path.{◌≡◌, refl}
use mathlib.Core.Bool.{Bool, true, false}
use mathlib.Core.Option.{Option, none, some}
use mathlib.Core.List.{List}
use native.Mathlib.Omega.{arith}
use flip_flop_protocol.Common.Lists.{length, get_elem?, get_or, get_elem?-eq-get_or, set}

pub data Outcome {ℓ} (A : Type ℓ) : Type ℓ where
  returns : A → Outcome A
  panics : Outcome A
  out_of_fuel : Outcome A

infixl 5 ◌>>=◌ ◌>>◌
abbrev pub ◌>>=◌ {ℓ κ} : {A : Type ℓ} {B : Type κ} → Outcome A → (A → Outcome B) → Outcome B
returns a >>= next = next a
panics >>= next = panics
out_of_fuel >>= next = out_of_fuel

abbrev pub ◌>>◌ {ℓ} : {B : Type ℓ} → Outcome (Unit {0}) → Outcome B → Outcome B
first >> next = first >>= λ unit. next

-- `assert!`
abbrev pub assert : Bool → Outcome (Unit {0})
assert true = returns tt
assert false = panics

pub >>=-eq-returns {ℓ κ} :
    {A : Type ℓ} {B : Type κ} (first : Outcome A) (next : A → Outcome B) {v : B}
    → (first >>= next) ≡ returns v
    → (u : A) × (first ≡ returns u) × (next u ≡ returns v)
>>=-eq-returns (returns u) next e = (u, refl, e)
>>=-eq-returns panics next e = absurd (ground arith)
>>=-eq-returns out_of_fuel next e = absurd (ground arith)

-- `Option::unwrap`, and `Result::unwrap` where the error is not read.
abbrev pub unwrap {ℓ} : {A : Type ℓ} → Option A → Outcome A
unwrap none = panics
unwrap (some a) = returns a

-- `xs[i]`, which panics out of bounds.
abbrev pub index {ℓ} : {A : Type ℓ} → List A → ℕ → Outcome A
index xs i = unwrap (get_elem? xs i)

-- `xs[i] = v`, which panics out of bounds.
abbrev pub store {ℓ} : {A : Type ℓ} → List A → ℕ → A → Outcome (List A)
store xs i v = index xs i >>= λ _. returns (set xs i v)

pub index-eq-get_or {ℓ} :
    {A : Type ℓ} (xs : List A) (i : ℕ) (d : A)
    → i < length xs
    → index xs i ≡ returns (get_or xs i d)
index-eq-get_or xs i d h = rw (get_elem?-eq-get_or xs i d h) refl

pub store-eq-set {ℓ} :
    {A : Type ℓ} (xs : List A) (i : ℕ) (v d : A)
    → i < length xs
    → store xs i v ≡ returns (set xs i v)
store-eq-set xs i v d h = rw (get_elem?-eq-get_or xs i d h) refl
