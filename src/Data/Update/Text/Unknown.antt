-- ===== src/Data/Update/Text/Unknown.antt =====
-- data/src/update.rs: what `from_str` makes of a designator that it does not know.
use flip_flop_protocol.Common.{
  ℕ, ◌^◌, ◌<◌, ◌≡◌, arith, none, some, List, [], ◌∷◌, ◌++◌, append_assoc, All-append,
}
use flip_flop_protocol.Common.Text.{codes, after_once, show_u8, Lacks, parse_u8-show_u8}
use flip_flop_protocol.Data.Update.Text.{show_core, parse_pre, from_str}
use flip_flop_protocol.Data.Update.Text.RoundTrip.{
  from_str-core, drop_build-append, split_pre-append, parse_tail_parts, show_u8-Lacks,
}

-- Behind three numbers that fit a byte, a designator with no plus sign in which neither `alpha.`
-- nor `beta.` occurs is dropped: the version is read as the release itself.
pub from_str-unknown_pre :
    (major minor patch : ℕ) (tag : List ℕ)
    → major < 2 ^ 8
    → minor < 2 ^ 8
    → patch < 2 ^ 8
    → Lacks b'+' tag
    → after_once (codes "alpha.") tag ≡ none
    → after_once (codes "beta.") tag ≡ none
    → from_str (show_core major minor patch ++ b'-' ∷ tag)
      ≡ some (record { major = major; minor = minor; patch = patch; pre = none })
from_str-unknown_pre major minor patch tag hm hn hp plus no_alpha no_beta =
    rw (parts, from_str-core major minor tail hm hn)
      (parse_tail_parts major minor tail tail (show_u8 patch) tag patch none
        (drop_build-append tail [] lacks).0
        (split_pre-append (show_u8 patch) tag (show_u8-Lacks b'-' patch hp (omega arith))).1
        (parse_u8-show_u8 patch hp) unknown)
  where
    tail : List ℕ
    tail = show_u8 patch ++ b'-' ∷ tag

    parts :
        show_core major minor patch ++ b'-' ∷ tag
        ≡ show_u8 major ++ b'.' ∷ (show_u8 minor ++ b'.' ∷ tail)
    parts = unfold show_core in simp append_assoc

    unknown : parse_pre tag ≡ some none
    unknown = unfold parse_pre in ground arith

    lacks : Lacks b'+' tail
    lacks =
        All-append _ (show_u8 patch) (b'-' ∷ tag) (show_u8-Lacks b'+' patch hp (omega arith))
          (omega arith, plus)
