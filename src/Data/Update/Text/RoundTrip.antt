-- ===== src/Data/Update/Text/RoundTrip.antt =====
-- data/src/update.rs: parsing a printed version, and what else `from_str` accepts.
use flip_flop_protocol.Common.{
  ℕ, ◌^◌, ◌<◌, ◌≡◌, refl, arith, sym, Option, none, some, List, [], ◌∷◌, ◌++◌, append_assoc,
  append-nil, All-append, drop,
}
use flip_flop_protocol.Common.Text.{
  codes, after_once, show_u8, parse_u8, IsDigit, Lacks, show_u8-IsDigit, IsDigit-Lacks,
  parse_u8-show_u8, split_once-append, split_once-none, after_once-none,
}
use flip_flop_protocol.Data.Update.{PreRelease, alpha, beta, Version, IsVersion, pre_ident}
use flip_flop_protocol.Data.Update.Text.{
  show_pre, show_core, to_string, drop_build, split_pre, parse_pre, parse_tail, from_str,
}

-- A printed number has no punctuation.
pub show_u8-Lacks : (b n : ℕ) → n < 2 ^ 8 → ¬ IsDigit b → Lacks b (show_u8 n)
show_u8-Lacks b n h d = IsDigit-Lacks b (show_u8 n) d (show_u8-IsDigit n h)

-- Reading the two numbers in front of what follows the second dot.
pub from_str-core :
    (major minor : ℕ) (s : List ℕ)
    → major < 2 ^ 8
    → minor < 2 ^ 8
    → from_str (show_u8 major ++ b'.' ∷ (show_u8 minor ++ b'.' ∷ s)) ≡ parse_tail major minor s
unfolding from_str
from_str-core major minor s hm hn = rw (
  split_once-append b'.' (show_u8 major) (show_u8 minor ++ b'.' ∷ s)
      (show_u8-Lacks b'.' major hm (omega arith)),
  parse_u8-show_u8 major hm,
  split_once-append b'.' (show_u8 minor) s (show_u8-Lacks b'.' minor hn (omega arith)),
  parse_u8-show_u8 minor hn,
)

-- A build identifier is dropped.
pub drop_build-append :
    (s build : List ℕ) → Lacks b'+' s → (drop_build s ≡ s) × (drop_build (s ++ b'+' ∷ build) ≡ s)
unfolding drop_build
drop_build-append s build h =
    (rw (split_once-none b'+' s h, drop_build), rw (split_once-append b'+' s build h, drop_build))

-- What stands behind the first dash.
pub split_pre-append :
    (l r : List ℕ) → Lacks b'-' l → (split_pre l ≡ (l, [])) × (split_pre (l ++ b'-' ∷ r) ≡ (l, r))
unfolding split_pre
split_pre-append l r h =
    (rw (split_once-none b'-' l h, split_pre), rw (split_once-append b'-' l r h, split_pre))

parse_pre-alpha :
    (n : ℕ) → n < 2 ^ 8 → parse_pre (codes "alpha." ++ show_u8 n) ≡ some (some (alpha n))
unfolding parse_pre after_once
parse_pre-alpha n h = rw (parse_u8-show_u8 n h)

parse_pre-beta : (n : ℕ) → n < 2 ^ 8 → parse_pre (codes "beta." ++ show_u8 n) ≡ some (some (beta n))
unfolding parse_pre after_once
parse_pre-beta n h = rw (
  parse_pre,
  after_once-none b'a' (codes "lpha.") (show_u8 n) (show_u8-Lacks b'a' n h (omega arith)),
  parse_u8-show_u8 n h,
)

-- A pre-release is printed behind a dash, with no plus sign, and is read back.
split_pre-show_pre :
    (l : List ℕ) (p : Option PreRelease)
    → Lacks b'-' l
    → split_pre (l ++ show_pre p) ≡ (l, drop 1 (show_pre p))
unfolding show_pre
split_pre-show_pre l none h = rw append-nil ((split_pre-append l [] h).0)
split_pre-show_pre l (some (alpha n)) h = (split_pre-append l (codes "alpha." ++ show_u8 n) h).1
split_pre-show_pre l (some (beta n)) h = (split_pre-append l (codes "beta." ++ show_u8 n) h).1

parse_pre-nil : parse_pre [] ≡ some none
unfolding parse_pre after_once
parse_pre-nil = refl

parse_pre-show_pre :
    (p : Option PreRelease) → pre_ident p < 2 ^ 8 → parse_pre (drop 1 (show_pre p)) ≡ some p
unfolding show_pre
parse_pre-show_pre none h = parse_pre-nil
parse_pre-show_pre (some (alpha n)) h = parse_pre-alpha n h
parse_pre-show_pre (some (beta n)) h = parse_pre-beta n h

show_pre-Lacks : (p : Option PreRelease) → pre_ident p < 2 ^ 8 → Lacks b'+' (show_pre p)
unfolding show_pre
show_pre-Lacks none h = tt
show_pre-Lacks (some (alpha n)) h =
    All-append _ (codes "-alpha.") (show_u8 n) (ground arith) (show_u8-Lacks b'+' n h (omega arith))
show_pre-Lacks (some (beta n)) h =
    All-append _ (codes "-beta.") (show_u8 n) (ground arith) (show_u8-Lacks b'+' n h (omega arith))

-- The parts of what follows the second dot, once the build identifier is dropped.
pub parse_tail_parts :
    (major minor : ℕ) (s s' l r : List ℕ) (patch : ℕ) (pre : Option PreRelease)
    → drop_build s ≡ s'
    → split_pre s' ≡ (l, r)
    → parse_u8 l ≡ some patch
    → parse_pre r ≡ some pre
    → parse_tail major minor s
      ≡ some (record { major = major; minor = minor; patch = patch; pre = pre })
unfolding parse_tail
parse_tail_parts major minor s s' l r patch pre d e p q = rw (d, e, p, q)

-- The tail of a printed version, whatever is dropped from it.
parse_tail-show_pre :
    (v : Version) (s : List ℕ)
    → IsVersion v
    → drop_build s ≡ show_u8 v.patch ++ show_pre v.pre
    → parse_tail v.major v.minor s ≡ some v
parse_tail-show_pre v s h d =
    parse_tail_parts v.major v.minor s _ (show_u8 v.patch) (drop 1 (show_pre v.pre)) v.patch v.pre d
      (split_pre-show_pre (show_u8 v.patch) v.pre
        (show_u8-Lacks b'-' v.patch h.patch_u8 (omega arith)))
      (parse_u8-show_u8 v.patch h.patch_u8) (parse_pre-show_pre v.pre h.pre_u8)

to_string-parts :
    (v : Version) (build : List ℕ)
    → to_string v ++ build
      ≡ show_u8 v.major
        ++ b'.' ∷ (show_u8 v.minor ++ b'.' ∷ ((show_u8 v.patch ++ show_pre v.pre) ++ build))
unfolding to_string show_core
to_string-parts v build = simp append_assoc

-- Parsing a printed version whose numbers fit a byte gives it back, also where a plus sign and any
-- build identifier follow.
pub from_str-to_string :
    (v : Version) (build : List ℕ)
    → IsVersion v
    → (from_str (to_string v) ≡ some v) × (from_str (to_string v ++ b'+' ∷ build) ≡ some v)
from_str-to_string v build h = (
  rw
      (
        sym (append-nil (to_string v)),
        to_string-parts v [],
        append-nil,
        from_str-core v.major v.minor _ h.major_u8 h.minor_u8,
      )
      (parse_tail-show_pre v tail h (drop_build-append tail build no_plus).0),
  rw (to_string-parts v (b'+' ∷ build), from_str-core v.major v.minor _ h.major_u8 h.minor_u8)
      (parse_tail-show_pre v (tail ++ b'+' ∷ build) h (drop_build-append tail build no_plus).1),
)
  where
    tail : List ℕ
    tail = show_u8 v.patch ++ show_pre v.pre

    no_plus : Lacks b'+' tail
    no_plus =
        All-append _ (show_u8 v.patch) (show_pre v.pre)
          (show_u8-Lacks b'+' v.patch h.patch_u8 (omega arith)) (show_pre-Lacks v.pre h.pre_u8)
