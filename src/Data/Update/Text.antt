-- ===== src/Data/Update/Text.antt =====
-- data/src/update.rs: `Display` and `FromStr` for `Version`. A text is the list of its bytes.
pub mod RoundTrip
pub mod Unknown
pub mod Grammar
use flip_flop_protocol.Common.{ℕ, ◌+◌, Option, none, some, List, [], ◌∷◌, ◌++◌}
use flip_flop_protocol.Common.Text.{codes, ◌>>=◌, split_once, after_once, show_u8, parse_u8}
use flip_flop_protocol.Data.Update.{PreRelease, alpha, beta, Version}

pub show_pre : Option PreRelease → List ℕ
show_pre (some (alpha ident)) = codes "-alpha." ++ show_u8 ident
show_pre (some (beta ident)) = codes "-beta." ++ show_u8 ident
show_pre none = []

-- The three numbers, with dots between them.
pub show_core : ℕ → ℕ → ℕ → List ℕ
show_core major minor patch = show_u8 major ++ b'.' ∷ (show_u8 minor ++ b'.' ∷ show_u8 patch)

unfoldable pub to_string : Version → List ℕ
unfolding show_core show_pre
to_string v = show_core v.major v.minor v.patch ++ show_pre v.pre

-- `if let Some((l, _)) = r.split_once('+') { l } else { r }`
pub drop_build : List ℕ → List ℕ
drop_build r = elim (split_once b'+' r) [ some (l, _) ↦ l | none ↦ r ]

-- `if let Some((l, r)) = r.split_once('-') { (l, r) } else { (r, "") }`
pub split_pre : List ℕ → List ℕ × List ℕ
split_pre r = elim (split_once b'-' r) [ some (l, r') ↦ (l, r') | none ↦ (r, []) ]

-- The two patterns in turn; an unknown designator is no pre-release. `none` is an error.
pub parse_pre : List ℕ → Option (Option PreRelease)
parse_pre r = elim (after_once (codes "alpha.") r) [
  | some r' ↦ parse_u8 r' >>= λ ident. some (some (alpha ident))
  | none ↦ elim (after_once (codes "beta.") r) [
    | some r' ↦ parse_u8 r' >>= λ ident. some (some (beta ident))
    | none ↦ some none
  ]
]

-- What follows the second dot.
pub parse_tail : ℕ → ℕ → List ℕ → Option Version
parse_tail major minor s = do
  let (l, r) = split_pre (drop_build s)
  patch ← parse_u8 l
  pre ← parse_pre r
  some (record { major = major; minor = minor; patch = patch; pre = pre })

-- `none` is `ParseVersionErr`.
unfoldable pub from_str : List ℕ → Option Version
unfolding parse_tail drop_build split_pre parse_pre
from_str s = do
  (l, r) ← split_once b'.' s
  major ← parse_u8 l
  (l', r') ← split_once b'.' r
  minor ← parse_u8 l'
  parse_tail major minor r'
