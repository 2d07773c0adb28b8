-- ===== src/Data/Update/Toy.antt =====
-- A concrete stand-in for postcard's encoding of an update, for the examples: four bytes of seven
-- bits for the offset, the length, and the bytes.
use flip_flop_protocol.Common.{
  ℕ, ◌+◌, ◌*◌, ◌/◌, ◌%◌, ◌≡◌, arith, List, ◌∷◌, length, take, take-append, length-append, leb,
  if◌then◌else◌, some, none,
}
use flip_flop_protocol.Common.Result.{Result, ok, err}
use flip_flop_protocol.Data.Crates.{Codec, IsCodec}
use flip_flop_protocol.Data.Frame.Toy.{write_prefix}
use flip_flop_protocol.Common.{ℕ, ◌<◌, ◌^◌, zero, suc, refl, ◌++◌, Option, Bool, true, false, ◌==◌}
use flip_flop_protocol.Data.Update.Prepared.{IsPrepare, IsPrepareBytes}
use flip_flop_protocol.Data.Update.{
  Update, PrepareForUpdate, PreRelease, alpha, beta, Version, pre_ident,
}
use flip_flop_protocol.Data.Update.Client.{FromSlice, IsFromSlice}
use flip_flop_protocol.Data.Update.Chunks.{IsUpdate}
use flip_flop_protocol.Data.Update.Packets.{IsUpdateBytes}

abbrev pub update_bytes : Update → List ℕ
update_bytes u =
    u.byte_offset / 2097152
    ∷ u.byte_offset / 16384 % 128
    ∷ u.byte_offset / 128 % 128
    ∷ u.byte_offset % 128
    ∷ length u.bytes
    ∷ u.bytes

abbrev pub read_update : List ℕ → Result (Unit {0}) Update
read_update (a ∷ b ∷ c ∷ d ∷ n ∷ rest) =
    if leb n (length rest)
    then ok (record { byte_offset = a * 2097152 + b * 16384 + c * 128 + d; bytes = take n rest })
    else err tt
read_update _ = err tt

abbrev pub toy_updates : Codec (Unit {0}) Update
toy_updates = record {
  to_slice = λ u. write_prefix (update_bytes u);
  to_vec =
      λ u capacity. if leb (length (update_bytes u)) capacity then some (update_bytes u) else none;
  from_bytes = read_update;
}

offset_digits :
    (o : ℕ) → o / 2097152 * 2097152 + o / 16384 % 128 * 16384 + o / 128 % 128 * 128 + o % 128 ≡ o
offset_digits o = omega arith

pub toy_updates-IsCodec : IsCodec toy_updates IsUpdate update_bytes
toy_updates-IsCodec = record {
  to_slice_fits = λ u buf v h. ground arith;
  to_slice_full = λ u buf v h. ground arith;
  to_vec_fits = λ u capacity v h. ground arith;
  from_bytes-append = λ u rest v.
      ground
        (arith, offset_digits u.byte_offset, length-append u.bytes rest, take-append u.bytes rest);
}

pub update_bytes-IsUpdateBytes : IsUpdateBytes update_bytes
update_bytes-IsUpdateBytes = record {
  update_bytes_fit = λ u v. let fit = v.bytes_fit in omega arith;
  update_bytes_u8 = λ u v.
      let fit = v.bytes_fit in
      let small = v.offset_u28 in
      (omega arith, (omega arith, (omega arith, (omega arith, (omega arith, v.bytes_u8)))));
}

-- The message that prepares an update: the version's numbers, its pre-release, the ports, the length
-- in four bytes, the flag, and the key.
abbrev pre_tag : Option PreRelease → ℕ
pre_tag none = 0
pre_tag (some (alpha n)) = 1
pre_tag (some (beta n)) = 2

abbrev read_pre : ℕ → ℕ → Option PreRelease
read_pre zero n = none
read_pre (suc zero) n = some (alpha n)
read_pre (suc (suc t)) n = some (beta n)

abbrev flag_byte : Bool → ℕ
flag_byte false = 0
flag_byte true = 1

abbrev pub prepare_bytes : PrepareForUpdate → List ℕ
prepare_bytes p =
    p.version.major
    ∷ p.version.minor
    ∷ p.version.patch
    ∷ pre_tag p.version.pre
    ∷ pre_ident p.version.pre
    ∷ p.server_ports
    ∷ p.update_byte_len / 16777216
    ∷ p.update_byte_len / 65536 % 256
    ∷ p.update_byte_len / 256 % 256
    ∷ p.update_byte_len % 256
    ∷ flag_byte p.signed
    ∷ p.update_key.key

abbrev read_prepare : List ℕ → Result (Unit {0}) PrepareForUpdate
read_prepare (major ∷ minor ∷ patch ∷ t ∷ n ∷ ports ∷ l₀ ∷ l₁ ∷ l₂ ∷ l₃ ∷ signed ∷ key) =
    ok (record {
      version = record { major = major; minor = minor; patch = patch; pre = read_pre t n };
      server_ports = ports;
      update_key = record { key = take 16 key };
      update_byte_len = l₀ * 16777216 + l₁ * 65536 + l₂ * 256 + l₃;
      signed = signed == 1;
    })
read_prepare _ = err tt

abbrev pub toy_prepares : Codec (Unit {0}) PrepareForUpdate
toy_prepares = record {
  to_slice = λ p. write_prefix (prepare_bytes p);
  to_vec = λ p capacity.
      if leb (length (prepare_bytes p)) capacity then some (prepare_bytes p) else none;
  from_bytes = read_prepare;
}

len_digits :
    (n : ℕ) → n / 16777216 * 16777216 + n / 65536 % 256 * 65536 + n / 256 % 256 * 256 + n % 256 ≡ n
len_digits n = omega arith

key_back : (key rest : List ℕ) → length key ≡ 16 → take 16 (key ++ rest) ≡ key
key_back key rest h = rw h at (take-append key rest)

pre_back : (o : Option PreRelease) → read_pre (pre_tag o) (pre_ident o) ≡ o
pre_back none = refl
pre_back (some (alpha n)) = refl
pre_back (some (beta n)) = refl

flag_back : (b : Bool) → (flag_byte b == 1) ≡ b
flag_back false = refl
flag_back true = refl

from_bytes-prepare_bytes :
    (v : Version) (ports len : ℕ) (key rest : List ℕ) (signed : Bool)
    → length key ≡ 16
    → let p : PrepareForUpdate = record {
      version = v;
      server_ports = ports;
      update_key = record { key = key };
      update_byte_len = len;
      signed = signed;
    } in
      read_prepare (prepare_bytes p ++ rest) ≡ ok p
from_bytes-prepare_bytes v ports len key rest signed h =
    rw (pre_back v.pre, len_digits len, key_back key rest h, flag_back signed) refl

pub toy_prepares-IsCodec : IsCodec toy_prepares IsPrepare prepare_bytes
toy_prepares-IsCodec = record {
  to_slice_fits = λ p buf v h. ground arith;
  to_slice_full = λ p buf v h. ground arith;
  to_vec_fits = λ p capacity v h. ground arith;
  from_bytes-append = λ p rest v.
      from_bytes-prepare_bytes p.version p.server_ports p.update_byte_len p.update_key.key rest
        p.signed v.key_len;
}

pre_tag-lt : (o : Option PreRelease) → pre_tag o < 2 ^ 8
pre_tag-lt none = omega arith
pre_tag-lt (some (alpha n)) = omega arith
pre_tag-lt (some (beta n)) = omega arith

flag_byte-lt : (b : Bool) → flag_byte b < 2 ^ 8
flag_byte-lt false = omega arith
flag_byte-lt true = omega arith

pub prepare_bytes-IsPrepareBytes : IsPrepareBytes prepare_bytes
prepare_bytes-IsPrepareBytes = record {
  prepare_bytes_fit = λ p v. let len = v.key_len in omega arith;
  prepare_bytes_u8 = λ p v.
      let len = v.len_u32 in
      (
        v.version.major_u8,
        (
          v.version.minor_u8,
          (
            v.version.patch_u8,
            (
              pre_tag-lt p.version.pre,
              (
                v.version.pre_u8,
                (
                  v.ports_u8,
                  (
                    omega arith,
                    (omega arith, (omega arith, (omega arith, (flag_byte-lt p.signed, v.key_u8)))),
                  ),
                ),
              ),
            ),
          ),
        ),
      );
}

abbrev pub toy_slice : FromSlice
toy_slice capacity s = if leb (length s) capacity then some s else none

pub toy_slice-IsFromSlice : IsFromSlice toy_slice
toy_slice-IsFromSlice = record {
  from_slice_fits = λ capacity s h. ground arith;
  from_slice_full = λ capacity s h. ground arith;
}
