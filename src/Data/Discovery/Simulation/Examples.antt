-- ===== src/Data/Discovery/Simulation/Examples.antt =====
-- The simulation of discovery at a concrete input, with a stand-in for `f64` in thousandths.
use flip_flop_protocol.Common.{ℕ, zero, suc, ◌+◌, ◌-◌, ◌*◌, ◌/◌, ◌≡◌, refl}
use flip_flop_protocol.Common.Integers.{ℤ, pos, negsuc}
use flip_flop_protocol.Common.Outcome.{returns, out_of_fuel}
use flip_flop_protocol.Data.Discovery.Simulation.{Float, round, simulate}

abbrev thousandths : ℤ → ℕ
thousandths (pos n) = n * 1000
thousandths (negsuc n) = 0

abbrev power : ℕ → ℕ → ℕ
power x zero = 1000
power x (suc k) = power x k * x / 1000

abbrev power_of : ℕ → ℤ → ℕ
power_of x (pos k) = power x k
power_of x (negsuc k) = 0

abbrev fixed_point : Float ℕ
fixed_point = record {
  from_i32 = thousandths;
  sub = λ x y. x - y;
  mul = λ x y. x * y / 1000;
  div = λ x y. x * 1000 / y;
  powi = power_of;
  round_to = λ x. (x + 500) / 1000 * 1000;
  to_i32 = λ x. pos (x / 1000);
}

two_of_three : round fixed_point (pos 2) (pos 3) ≡ returns (pos 1)
unfolding round
two_of_three = refl

in_two_rounds : simulate fixed_point 3 (pos 2) (pos 4) (pos 3) ≡ returns (pos 2)
unfolding simulate
in_two_rounds = refl

-- Two stations that share one slot.
one_slot : simulate fixed_point 50 (pos 2) (pos 1) (pos 255) ≡ out_of_fuel
unfolding simulate
one_slot = refl
