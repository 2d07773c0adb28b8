-- ===== src/Data/Discovery/UnitTests.antt =====
-- data/src/discovery.rs: the unit tests, as computations that return or panic.
use flip_flop_protocol.Common.{
  ℕ, zero, suc, ◌+◌, ◌-◌, ◌≡◌, refl, Bool, true, false, not, ◌&&◌, Option, none, some, [], ◌∷◌, All,
  if◌then◌else◌, ◌==◌, replicate,
}
use flip_flop_protocol.Common.Asserts.{eq_maybe, assert_eq}
use flip_flop_protocol.Common.Outcome.{◌>>◌, Outcome, returns, out_of_fuel, assert, index, ◌>>=◌}
use flip_flop_protocol.Common.Words.{u8}
use flip_flop_protocol.Data.Discovery.{
  Identify, Identified, AddressesIter, max_addresses, min_payload_size, is_address_set, set_address,
  iter, next, with_random_address, rng_fixture,
}

abbrev no_addresses : Identify
no_addresses = record { addresses = replicate min_payload_size 0 }

-- `for address in first..first + count { identify.set_address(address as u8) }`
set_addresses : ℕ → ℕ → Identify → Outcome Identify
unfolding set_address
set_addresses first zero identify = returns identify
set_addresses first (suc count) identify = do
  identify' ← set_address identify (u8 first)
  set_addresses (first + 1) count identify'

eq_identified : Identified → Identified → Bool
eq_identified a b = a.server_address == b.server_address && a.server_ports == b.server_ports

test_set_get_bits : Outcome (Unit {0})
unfolding set_address is_address_set
test_set_get_bits = do
  one ← set_address no_addresses 1
  identify ← set_address one 9
  first ← index identify.addresses 0
  assert (first == 0b00000010)
  second ← index identify.addresses 1
  assert (second == 0b00000010)
  has_1 ← is_address_set identify 1
  assert has_1
  has_9 ← is_address_set identify 9
  assert has_9
  has_10 ← is_address_set identify 10
  assert (not has_10)

-- What `with_random_address` returns with a generator that draws one number.
draw_address : Identify → ℕ → Outcome (Option Identified)
unfolding iter with_random_address
draw_address identify return_val = do
  (identified, rng) ← with_random_address rng_fixture (iter identify) return_val 0b00000010
  returns identified

identified_at : ℕ → Option Identified
identified_at address = some (record { server_address = address; server_ports = 0b00000010 })

test_identified_with_none_free : Outcome (Unit {0})
unfolding set_addresses draw_address eq_identified
test_identified_with_none_free = do
  identify ← set_addresses 0 max_addresses no_addresses
  identified ← draw_address identify 1
  assert_eq (eq_maybe eq_identified) identified none

test_identified_with_one_free : Outcome (Unit {0})
unfolding set_addresses draw_address eq_identified identified_at
test_identified_with_one_free = do
  identify ← set_addresses 2 (max_addresses - 2) no_addresses
  identified ← draw_address identify 1
  assert_eq (eq_maybe eq_identified) identified (identified_at 1)

test_identified_with_three_free : Outcome (Unit {0})
unfolding set_address set_addresses draw_address eq_identified identified_at
test_identified_with_three_free = do
  zeroth ← set_address no_addresses 0
  identify ← set_addresses 4 (max_addresses - 4) zeroth
  identified ← draw_address identify 2
  assert_eq (eq_maybe eq_identified) identified (identified_at 3)

test_identified_with_all_but_first_free : Outcome (Unit {0})
unfolding set_address draw_address eq_identified identified_at
test_identified_with_all_but_first_free = do
  identify ← set_address no_addresses 0
  identified ← draw_address identify 254
  assert_eq (eq_maybe eq_identified) identified (identified_at 255)

-- `enumerate().skip(1).find(|(_, is_set)| *is_set)` behind the first item, on fuel.
find_set : ℕ → AddressesIter → ℕ → Outcome (Option (ℕ × Bool))
unfolding next
find_set zero it i = out_of_fuel
find_set (suc fuel) it i = do
  (item, it') ← next it
  elim item [
    | none ↦ returns none
    | some true ↦ returns (some (i, true))
    | some false ↦ find_set fuel it' (i + 1)
  ]

test_iter_with_skip : Outcome (Unit {0})
unfolding set_address iter next find_set
test_iter_with_skip = do
  zeroth ← set_address no_addresses 0
  identify ← set_address zeroth 3
  (skipped, it) ← next (iter identify)
  found ← find_set max_addresses it 1
  assert_eq (eq_maybe (λ a b. a.0 == b.0 && (if a.1 then b.1 else not b.1))) found (some (3, true))

-- Each test returns.
discovery_tests :
    All
      (λ test. test ≡ returns tt)
      (test_set_get_bits ∷ test_identified_with_none_free ∷ test_identified_with_one_free
        ∷ test_identified_with_three_free ∷ test_identified_with_all_but_first_free
        ∷ test_iter_with_skip ∷ [])
unfolding test_set_get_bits test_identified_with_none_free test_identified_with_one_free
    test_identified_with_three_free test_identified_with_all_but_first_free test_iter_with_skip
discovery_tests = (refl, (refl, (refl, (refl, (refl, (refl, tt))))))
