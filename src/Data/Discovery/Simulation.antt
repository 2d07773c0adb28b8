-- ===== src/Data/Discovery/Simulation.antt =====
-- data/examples/discovery_analysis/main.rs: the expected number of rounds that discovery takes.
mod OneSlot
mod Examples
use flip_flop_protocol.Common.{ℕ, zero, suc, ◌+◌, ◌-◌, ◌^◌, ◌<◌, ◌≡◌, if◌then◌else◌}
use flip_flop_protocol.Common.Integers.{ℤ, pos, ◌+ℤ◌, ◌-ℤ◌, checked, is_positive}
use flip_flop_protocol.Common.Outcome.{Outcome, returns, out_of_fuel, ◌>>=◌}

-- What the simulation uses of `f64`: `to_i32` is `as i32` of the rounded number.
pub record Float (F : Type 0) : Type 0 where
  pub from_i32 : ℤ → F
  pub sub : F → F → F
  pub mul : F → F → F
  pub div : F → F → F
  pub powi : F → ℤ → F
  pub round_to : F → F
  pub to_i32 : F → ℤ

module _ {F : Type 0} (f : Float F) where
  -- `n as f64 * (1.0 - 1.0 / m as f64).powi(n - 1)`, rounded: the probability of a collision is only
  -- printed.
  unfoldable pub round : ℤ → ℤ → Outcome ℤ
  round n m = checked (n -ℤ pos 1) >>= λ exponent.
      let one = f.from_i32 (pos 1) in
      let e = f.mul (f.from_i32 n) (f.powi (f.sub one (f.div one (f.from_i32 m))) exponent) in
      returns (f.to_i32 (f.round_to e))

  -- The loop of `simulate` on fuel: `i` is the number of the round.
  unfoldable pub simulate_loop : ℕ → ℤ → ℤ → ℤ → ℤ → Outcome ℤ
  unfolding round
  simulate_loop zero stations slots addresses i = out_of_fuel
  simulate_loop (suc fuel) stations slots addresses i =
      let turn = round stations slots >>= λ received. round received addresses >>= λ assigned.
      checked (stations -ℤ assigned) >>= λ stations'.
      checked (addresses -ℤ assigned) >>= λ addresses'.
      checked (i +ℤ pos 1) >>= λ i'. simulate_loop fuel stations' slots addresses' i' in
      if is_positive stations then turn else checked (i -ℤ pos 1)

  unfoldable pub simulate : ℕ → ℤ → ℤ → ℤ → Outcome ℤ
  unfolding simulate_loop
  simulate fuel stations slots addresses = simulate_loop fuel stations slots addresses (pos 1)

-- What IEEE 754 says of the numbers that the simulation meets, with Rust's `powi` and `as i32`: 1 / 1
-- and 1 - 1 are exact, `powi(x, 0)` is 1 for every x and a positive power of 0 is 0, a number from 0
-- on times 0 is 0 and times 1 itself, whole numbers round to themselves, and 0 times anything, where
-- it is not 0, is NaN, which becomes 0 as an `i32`.
pub record IsFloat {F : Type 0} (f : Float F) : Type 0 where
  pub one_div_one : f.div (f.from_i32 (pos 1)) (f.from_i32 (pos 1)) ≡ f.from_i32 (pos 1)
  pub one_sub_one : f.sub (f.from_i32 (pos 1)) (f.from_i32 (pos 1)) ≡ f.from_i32 (pos 0)
  pub powi_zero : (x : F) → f.powi x (pos 0) ≡ f.from_i32 (pos 1)
  pub zero_powi : (k : ℕ) → f.powi (f.from_i32 (pos 0)) (pos (suc k)) ≡ f.from_i32 (pos 0)
  pub mul_one : (n : ℕ) → f.mul (f.from_i32 (pos n)) (f.from_i32 (pos 1)) ≡ f.from_i32 (pos n)
  pub mul_zero : (n : ℕ) → f.mul (f.from_i32 (pos n)) (f.from_i32 (pos 0)) ≡ f.from_i32 (pos 0)
  pub whole : (n : ℕ) → n < 2 ^ 31 → f.to_i32 (f.round_to (f.from_i32 (pos n))) ≡ pos n
  pub zero_mul : (x : F) → f.to_i32 (f.round_to (f.mul (f.from_i32 (pos 0)) x)) ≡ pos 0
