-- ===== src/Data/Update/UnitTests.antt =====
-- data/src/update.rs: the unit tests, as computations that return or panic.
use Prim.Native.Nat.{Ordering}
use Prim.Native.Nat.Ordering.{lt, eq, gt}
use flip_flop_protocol.Common.{
  ℕ, ◌≡◌, refl, Bool, true, false, ◌&&◌, Option, none, some, List, [], ◌∷◌, ◌==◌, All,
}
use flip_flop_protocol.Common.Asserts.{eq_list, eq_maybe, assert_eq}
use flip_flop_protocol.Common.Outcome.{◌>>◌, Outcome, returns, assert, unwrap, ◌>>=◌}
use flip_flop_protocol.Common.Text.{codes, split_once, parse_u8, after_once, show_u8}
use flip_flop_protocol.Data.Update.{PreRelease, alpha, beta, Version}
use flip_flop_protocol.Data.Update.Text.{from_str, to_string}
use flip_flop_protocol.Data.Update.Order.{version_cmp}

-- The derived `PartialEq`.
abbrev eq_pre_release : PreRelease → PreRelease → Bool
eq_pre_release (alpha m) (alpha n) = m == n
eq_pre_release (alpha m) (beta n) = false
eq_pre_release (beta m) (alpha n) = false
eq_pre_release (beta m) (beta n) = m == n

eq_version : Version → Version → Bool
eq_version v w =
    v.major == w.major
    && v.minor == w.minor
    && v.patch == w.patch
    && eq_maybe eq_pre_release v.pre w.pre

-- `<`, by `partial_cmp`.
abbrev is_lt : Ordering → Bool
is_lt lt = true
is_lt eq = false
is_lt gt = false

-- `.parse::<Version>().unwrap()`
parse_version : List ℕ → Outcome Version
unfolding from_str
parse_version s = unwrap (from_str s)

assert_parses : List ℕ → Option PreRelease → Outcome (Unit {0})
unfolding parse_version eq_version
assert_parses s pre = do
  version ← parse_version s
  assert_eq eq_version version (record { major = 1; minor = 2; patch = 3; pre = pre })

test_parse_versions : Outcome (Unit {0})
unfolding assert_parses
test_parse_versions = do
  assert_parses (codes "1.2.3") none
  assert_parses (codes "1.2.3-alpha.1") (some (alpha 1))
  assert_parses (codes "1.2.3-beta.1") (some (beta 1))
  assert_parses (codes "1.2.3-beta.1+some-additional-ident") (some (beta 1))
  assert_parses (codes "1.2.3+some-additional-ident") none

assert_lt : List ℕ → List ℕ → Outcome (Unit {0})
unfolding parse_version version_cmp
assert_lt s t = do
  version ← parse_version s
  other ← parse_version t
  assert (is_lt (version_cmp version other))

test_compare_versions : Outcome (Unit {0})
unfolding parse_version eq_version assert_lt
test_compare_versions = do
  version ← parse_version (codes "1.0.0")
  other ← parse_version (codes "1.0.0")
  assert (eq_version version other)
  assert_lt (codes "1.0.0") (codes "2.0.0")
  assert_lt (codes "1.1.0") (codes "1.2.0")
  assert_lt (codes "1.1.1") (codes "1.1.2")
  assert_lt (codes "1.0.0-alpha.1") (codes "1.0.0")
  assert_lt (codes "1.0.0-beta.1") (codes "1.0.0")
  assert_lt (codes "1.0.0-alpha.1") (codes "1.0.0-beta.1")
  assert_lt (codes "1.0.0-alpha.1") (codes "1.0.0-alpha.2")

assert_shows : List ℕ → Outcome (Unit {0})
unfolding parse_version to_string
assert_shows s = do
  version ← parse_version s
  assert_eq (eq_list (λ m n. m == n)) (to_string version) s

display_versions : Outcome (Unit {0})
unfolding assert_shows
display_versions = do
  assert_shows (codes "1.2.3")
  assert_shows (codes "1.2.3-alpha.4")
  assert_shows (codes "1.2.3-beta.4")

-- Each test returns.
update_tests :
    All
      (λ test. test ≡ returns tt)
      (test_parse_versions ∷ test_compare_versions ∷ display_versions ∷ [])
unfolding test_parse_versions test_compare_versions display_versions split_once parse_u8 after_once
    show_u8
update_tests = (refl, (refl, (refl, tt)))
