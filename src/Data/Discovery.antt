-- ===== src/Data/Discovery.antt =====
-- data/src/discovery.rs: the addresses known to the client, and the address that a server asks for.
pub mod Members
pub mod Iteration
pub mod Free
pub mod Spare
pub mod Choice
pub mod Packets
pub mod Server
pub mod Known
pub mod Client
pub mod Round
pub mod Rounds
pub mod Reorder
pub mod Answer
pub mod Servers
pub mod NoLoss
pub mod Unique
pub mod Settled
pub mod Simulation
mod UnitTests
pub mod Toy
mod Examples
use flip_flop_protocol.Common.{
  ℕ, zero, suc, ◌+◌, ◌*◌, ◌/◌, ◌%◌, ◌^◌, Bool, true, false, not, Option, none, some, List, bit_and,
  bit_or, ltb, ◌==◌, if◌then◌else◌, replicate,
}
use flip_flop_protocol.Common.Words.{u8}
use flip_flop_protocol.Common.Outcome.{
  Outcome, returns, out_of_fuel, assert, index, store, ◌>>=◌, ◌>>◌,
}
use flip_flop_protocol.Data.Frame.{header_size, mic_size}

abbrev pub addresses_per_byte : ℕ
addresses_per_byte = 8

abbrev pub max_addresses : ℕ
max_addresses = 256

abbrev pub min_payload_size : ℕ
min_payload_size = max_addresses / addresses_per_byte

abbrev pub min_packet_size : ℕ
min_packet_size = header_size + min_payload_size + mic_size

pub record Identify : Type 0 where
  pub addresses : List ℕ

pub record Identified : Type 0 where
  pub server_address : ℕ
  pub server_ports : ℕ

-- `x << k` on a `u8`
abbrev pub shl_u8 : ℕ → ℕ → ℕ
shl_u8 x k = u8 (x * 2 ^ k)

pub is_address_set : Identify → ℕ → Outcome Bool
is_address_set id address = do
  assert (ltb address max_addresses)
  byte ← index id.addresses (address / addresses_per_byte)
  returns (not (bit_and byte (shl_u8 1 (address % addresses_per_byte)) == 0))

pub set_address : Identify → ℕ → Outcome Identify
set_address id address = do
  assert (ltb address max_addresses)
  byte ← index id.addresses (address / 8)
  addresses' ←
      store id.addresses (address / 8) (bit_or byte (shl_u8 1 (address % addresses_per_byte)))
  returns (record id { addresses = addresses' })

pub record AddressesIter : Type 0 where
  pub i : ℕ
  pub j : ℕ
  pub addresses : List ℕ

pub iter : Identify → AddressesIter
iter id = record { i = 0; j = 1; addresses = id.addresses }

-- `Iterator::next` returns the item and the iterator after it.
pub next : AddressesIter → Outcome (Option Bool × AddressesIter)
next it =
    if ltb it.i min_payload_size
    then index it.addresses it.i >>= (λ byte.
      let item = not (bit_and byte it.j == 0) in
      let j' = shl_u8 it.j 1 in
      let it' = if j' == 0 then record it { i = it.i + 1; j = 1 } else record it { j = j' } in
      returns (some item, it'))
    else returns (none, it)

-- `for (i, taken) in iter.enumerate()`, on fuel: the state is the array and `j`.
pub spare_loop : ℕ → AddressesIter → ℕ → List ℕ → ℕ → Outcome (List ℕ × ℕ)
spare_loop zero it i spare_addresses j = out_of_fuel
spare_loop (suc fuel) it i spare_addresses j = do
  (item, it') ← next it
  elim item [
    | none ↦ returns (spare_addresses, j)
    | some true ↦ spare_loop fuel it' (i + 1) spare_addresses j
    | some false ↦
        store spare_addresses j i >>= λ spare'. spare_loop fuel it' (i + 1) spare' (j + 1)
  ]

-- Each round but the last takes one of the 256 items.
abbrev pub spare_fuel : ℕ
spare_fuel = max_addresses + 1

-- `RngCore::next_u32` takes the generator's state and returns a `u32` and the state after it.
pub record Rng (R : Type 0) : Type 0 where
  pub next_u32 : R → ℕ × R

pub with_random_address :
    {R : Type 0} → Rng R → AddressesIter → R → ℕ → Outcome (Option Identified × R)
unfolding spare_loop
with_random_address g it rng server_ports = do
  (spare_addresses, j) ← spare_loop spare_fuel it 0 (replicate max_addresses 0) 0
  let (drawn, rng') = g.next_u32 rng
  if ltb 0 j
      then index spare_addresses (drawn % j) >>= (λ address.
        returns (some (record { server_address = u8 address; server_ports = server_ports }), rng'))
      else returns (none, rng)

-- The generator of the source's tests, which returns its state.
abbrev pub rng_fixture : Rng ℕ
rng_fixture = record { next_u32 = λ return_val. (return_val, return_val) }
