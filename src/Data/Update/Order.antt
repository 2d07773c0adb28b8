-- ===== src/Data/Update/Order.antt =====
-- data/src/update.rs: `Ord` for `PreRelease` and `Version`.
use Prim.Native.Nat.{compare, Ordering}
use Prim.Native.Nat.Ordering.{lt, eq, gt}
use flip_flop_protocol.Common.{ℕ, ◌+◌, ◌*◌, ◌^◌, ◌<◌, ◌≡◌, ◌↔◌, refl, arith, Option, none, some}
use flip_flop_protocol.Data.Update.{PreRelease, alpha, beta, Version, IsVersion, pre_ident}

-- `Ordering::then`
pub then : Ordering → Ordering → Ordering
then eq other = other
then lt other = lt
then gt other = gt

pub pre_release_cmp : PreRelease → PreRelease → Ordering
pre_release_cmp (alpha self_ident) (alpha other_ident) = compare self_ident other_ident
pre_release_cmp (alpha _) (beta _) = lt
pre_release_cmp (beta _) (alpha _) = gt
pre_release_cmp (beta self_ident) (beta other_ident) = compare self_ident other_ident

-- The match on the two `pre` fields.
pub pre_cmp : Option PreRelease → Option PreRelease → Ordering
unfolding pre_release_cmp
pre_cmp none none = eq
pre_cmp none (some _) = gt
pre_cmp (some _) none = lt
pre_cmp (some self_pre) (some other_pre) = pre_release_cmp self_pre other_pre

unfoldable pub version_cmp : Version → Version → Ordering
unfolding then pre_cmp
version_cmp a b =
    then (then (then (compare a.major b.major) (compare a.minor b.minor)) (compare a.patch b.patch))
      (pre_cmp a.pre b.pre)

-- An independent description of the order: pre-releases stand below the release, alphas below
-- betas, and a version is a number in mixed radix.
pub pre_rank : Option PreRelease → ℕ
pre_rank (some (alpha n)) = n
pre_rank (some (beta n)) = 256 + n
pre_rank none = 512

pub rank : Version → ℕ
rank v = ((v.major * 256 + v.minor) * 256 + v.patch) * 1024 + pre_rank v.pre

pre_cmp-rank :
    (p q : Option PreRelease)
    → pre_ident p < 2 ^ 8
    → pre_ident q < 2 ^ 8
    → pre_cmp p q ≡ compare (pre_rank p) (pre_rank q)
unfolding pre_cmp pre_rank
pre_cmp-rank none none hp hq = refl
pre_cmp-rank none (some (alpha n)) hp hq = ground arith
pre_cmp-rank none (some (beta n)) hp hq = ground arith
pre_cmp-rank (some (alpha m)) none hp hq = ground arith
pre_cmp-rank (some (beta m)) none hp hq = ground arith
pre_cmp-rank (some (alpha m)) (some (alpha n)) hp hq = refl
pre_cmp-rank (some (alpha m)) (some (beta n)) hp hq = ground arith
pre_cmp-rank (some (beta m)) (some (alpha n)) hp hq = ground arith
pre_cmp-rank (some (beta m)) (some (beta n)) hp hq = ground arith

pre_rank-lt : (p : Option PreRelease) → pre_ident p < 2 ^ 8 → pre_rank p < 1024
unfolding pre_rank
pre_rank-lt none h = omega arith
pre_rank-lt (some (alpha n)) h = omega arith
pre_rank-lt (some (beta n)) h = omega arith

-- Versions whose numbers fit a byte compare as their ranks: by major, minor and patch number, and
-- at equal numbers alphas by identifier below betas by identifier below the release.
pub version_cmp-rank :
    (a b : Version) → IsVersion a → IsVersion b → version_cmp a b ≡ compare (rank a) (rank b)
unfolding version_cmp rank
version_cmp-rank a b va vb = ground (
  arith,
  pre_cmp-rank a.pre b.pre va.pre_u8 vb.pre_u8,
  pre_rank-lt a.pre va.pre_u8,
  pre_rank-lt b.pre vb.pre_u8,
)

pre_cmp-eq_iff : (p q : Option PreRelease) → (pre_cmp p q ≡ eq) ↔ (p ≡ q)
unfolding pre_cmp
pre_cmp-eq_iff none none = (λ _. refl, λ _. refl)
pre_cmp-eq_iff none (some q) = ground arith
pre_cmp-eq_iff (some p) none = ground arith
pre_cmp-eq_iff (some (alpha m)) (some (alpha n)) = ground arith
pre_cmp-eq_iff (some (alpha m)) (some (beta n)) = ground arith
pre_cmp-eq_iff (some (beta m)) (some (alpha n)) = ground arith
pre_cmp-eq_iff (some (beta m)) (some (beta n)) = ground arith

then-eq_iff : (x y : Ordering) → (then x y ≡ eq) ↔ ((x ≡ eq) × (y ≡ eq))
unfolding then
then-eq_iff lt y = ground arith
then-eq_iff eq y = ground arith
then-eq_iff gt y = ground arith

compare-eq_iff : (m n : ℕ) → (compare m n ≡ eq) ↔ (m ≡ n)
compare-eq_iff m n = ground arith

-- The comparison says that two versions are equal exactly when they are.
pub version_cmp-eq_iff : (a b : Version) → (version_cmp a b ≡ eq) ↔ (a ≡ b)
unfolding version_cmp
version_cmp-eq_iff a b = ground (
  arith,
  then-eq_iff
      (then (then (compare a.major b.major) (compare a.minor b.minor)) (compare a.patch b.patch))
      (pre_cmp a.pre b.pre),
  then-eq_iff (then (compare a.major b.major) (compare a.minor b.minor)) (compare a.patch b.patch),
  then-eq_iff (compare a.major b.major) (compare a.minor b.minor),
  pre_cmp-eq_iff a.pre b.pre,
)
