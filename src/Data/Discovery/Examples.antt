-- ===== src/Data/Discovery/Examples.antt =====
-- The tests of data/src/discovery.rs, and the theorems on discovery at concrete inputs.
use flip_flop_protocol.Common.{
  ℕ, ◌<◌, ◌^◌, ◌≡◌, refl, ◌↔◌, arith, true, false, Option, none, some, ◌∷◌, replicate,
  if◌then◌else◌, ◌==◌, length, get_or, ltb, ◌%◌,
}
use flip_flop_protocol.Common.Outcome.{returns}
use flip_flop_protocol.Data.Discovery.{
  Identify, Identified, rng_fixture, max_addresses, is_address_set, set_address, iter, next,
  spare_loop, with_random_address,
}
use flip_flop_protocol.Data.Discovery.Members.{IsIdentify, is_address_set-set_address}
use flip_flop_protocol.Data.Discovery.Iteration.{drain, check_from, drain-iter}
use flip_flop_protocol.Data.Discovery.Free.{free_addresses}
use flip_flop_protocol.Common.{List, [], Bool, false}
use flip_flop_protocol.Data.Discovery.Round.{client_round}
use flip_flop_protocol.Data.Discovery.Rounds.{client_round-is_address_set}
use flip_flop_protocol.Data.Discovery.Choice.{
  with_random_address-free, with_random_address-unset, with_random_address-some_iff,
  with_random_address-every_unset,
}

-- Addresses 0 and 3 are known.
abbrev sample : Identify
sample = record { addresses = 9 ∷ replicate 31 0 }

sample-IsIdentify : IsIdentify sample
sample-IsIdentify = omega arith

-- All but 1, 2 and 3 are known.
abbrev nearly_full : Identify
nearly_full = record { addresses = 0xf1 ∷ replicate 31 0xff }

nearly_full-IsIdentify : IsIdentify nearly_full
nearly_full-IsIdentify = omega arith

three_free :
    with_random_address rng_fixture (iter nearly_full) 2 2
    ≡ returns (some (record { server_address = 3; server_ports = 2 }), 2)
unfolding with_random_address spare_loop next iter
three_free = refl

none_free :
    with_random_address rng_fixture (iter (record { addresses = replicate 32 255 })) 1 2
    ≡ returns (none, 1)
unfolding with_random_address spare_loop next iter
none_free = refl

known_three : is_address_set sample 3 ≡ returns true
unfolding is_address_set
known_three = refl

unknown_two : is_address_set nearly_full 2 ≡ returns false
unfolding is_address_set
unknown_two = refl

is_address_set-set_address_example :
    (id' : Identify) × (set_address sample 9 ≡ returns id')
    × IsIdentify id'
    × (is_address_set id' 3 ≡ (if 3 == 9 then returns true else is_address_set sample 3))
is_address_set-set_address_example =
    is_address_set-set_address 9 3 sample-IsIdentify (omega arith) (omega arith)

drain-iter_example : drain 257 (iter sample) ≡ check_from sample 0 256
drain-iter_example = drain-iter 257 sample-IsIdentify (omega arith)

with_random_address-unset_example :
    (3 < max_addresses) × (is_address_set nearly_full 3 ≡ returns false) × ◌≡◌ {A = ℕ} 2 2
with_random_address-unset_example =
    with_random_address-unset rng_fixture 2 2 nearly_full-IsIdentify three_free

with_random_address-some_iff_example :
    ((r : Option Identified × ℕ) × (with_random_address rng_fixture (iter sample) 7 2 ≡ returns r))
    × (((x : Identified) × (rng' : ℕ) × (with_random_address rng_fixture (iter sample) 7 2
            ≡ returns (some x, rng')))
        ↔ ((a : ℕ) × (a < max_addresses) × (is_address_set sample a ≡ returns false)))
with_random_address-some_iff_example =
    with_random_address-some_iff rng_fixture 7 2 sample-IsIdentify

with_random_address-every_unset_example :
    (drawn : ℕ) × (drawn < 2 ^ 32)
    × (with_random_address rng_fixture (iter nearly_full) drawn 2
        ≡ returns (some (record { server_address = 2; server_ports = 2 }), drawn))
with_random_address-every_unset_example =
    with_random_address-every_unset 2 2 nearly_full-IsIdentify (omega arith) unknown_two

with_random_address-free_example :
    with_random_address rng_fixture (iter sample) 7 2
    ≡ returns (
        if ltb 0 (length (free_addresses sample))
        then (
          some (record {
            server_address = get_or (free_addresses sample) (7 % length (free_addresses sample)) 0;
            server_ports = 2;
          }),
          7,
        )
        else (none, 7))
with_random_address-free_example = with_random_address-free rng_fixture 7 2 sample-IsIdentify

-- Servers draw 1, 2, 1 and 7, and a payload is garbled.
abbrev replies : List (Option Identified)
replies =
    some (record { server_address = 1; server_ports = 2 })
    ∷ some (record { server_address = 2; server_ports = 2 })
    ∷ none
    ∷ some (record { server_address = 1; server_ports = 2 })
    ∷ some (record { server_address = 7; server_ports = 2 })
    ∷ []

client_round-is_address_set_example :
    (identify' : Identify) × (finished : Bool) × (client_round sample replies
      ≡ returns (identify', finished))
    × IsIdentify identify'
    × (is_address_set identify' 7 ≡ returns true)
unfolding is_address_set
client_round-is_address_set_example =
    client_round-is_address_set sample replies 7 false sample-IsIdentify (omega arith) (omega arith)
      refl

-- One server, which draws 1, beside the address 0.
abbrev one_reply : List (Option Identified)
one_reply = some (record { server_address = 1; server_ports = 2 }) ∷ []

abbrev only_client : Identify
only_client = record { addresses = 1 ∷ replicate 31 0 }

one_server :
    client_round only_client one_reply ≡ returns (record { addresses = 3 ∷ replicate 31 0 }, true)
unfolding client_round set_address
one_server = refl
