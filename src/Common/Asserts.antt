-- ===== src/Common/Asserts.antt =====
-- What unit tests are made of: `==` of derived `PartialEq`, and `assert_eq!`.
use mathlib.Core.Bool.{Bool, true, false}
use mathlib.Core.Option.{Option, none, some}
use mathlib.Core.List.{List, [], ◌∷◌}
use flip_flop_protocol.Common.Tests.{if◌then◌else◌}
use flip_flop_protocol.Common.Outcome.{Outcome, assert}

abbrev pub eq_list {ℓ} : {A : Type ℓ} → (A → A → Bool) → List A → List A → Bool
eq_list eq [] [] = true
eq_list eq [] (y ∷ ys) = false
eq_list eq (x ∷ xs) [] = false
eq_list eq (x ∷ xs) (y ∷ ys) = let rest = eq_list eq xs ys in if eq x y then rest else false

abbrev pub eq_maybe {ℓ} : {A : Type ℓ} → (A → A → Bool) → Option A → Option A → Bool
eq_maybe eq none none = true
eq_maybe eq none (some y) = false
eq_maybe eq (some x) none = false
eq_maybe eq (some x) (some y) = eq x y

-- `left == right` by the type's equality.
abbrev pub assert_eq {ℓ} : {A : Type ℓ} → (A → A → Bool) → A → A → Outcome (Unit {0})
assert_eq eq left right = assert (eq left right)
