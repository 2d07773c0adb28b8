-- ===== src/Common/Text.antt =====
-- The parts of Rust's `str` and `u8` that the sources use, over the bytes of a text.
use Prim.Native.Nat.{ℕ, ◌+◌, ◌-◌, ◌*◌, ◌/◌, ◌%◌, ◌^◌, ◌≤◌, ◌<◌}
use Prim.Native.Char.{code}
use Prim.Native.String.{String}
use mathlib.Core.Path.{◌≡◌, refl}
use mathlib.Core.Logic.{◌≢◌}
use mathlib.Core.Bool.{◌||◌}
use mathlib.Core.List.{List, [], ◌∷◌, ◌++◌}
use mathlib.Core.Option.{Option, none, some}
use native.Mathlib.Omega.{arith}
use flip_flop_protocol.Common.Tests.{◌==◌, ltb, if◌then◌else◌}
use flip_flop_protocol.Common.Lists.{All}

-- The code points of a literal: its bytes, where it is ASCII.
abbrev pub codes : String → List ℕ
codes String.[] = []
codes (String.◌∷◌ c s) = code c ∷ codes s

infixl 5 ◌>>=◌
abbrev pub ◌>>=◌ {ℓ κ} : {A : Type ℓ} {B : Type κ} → Option A → (A → Option B) → Option B
some a >>= next = next a
none >>= next = none

-- `s.split_once(sep)` at a character.
unfoldable pub split_once : ℕ → List ℕ → Option (List ℕ × List ℕ)
split_once sep [] = none
split_once sep (c ∷ s) =
    let rest = split_once sep s in
    if c == sep then some ([], s) else (rest >>= λ (l, r). some (c ∷ l, r))

-- `s.strip_prefix(pat)`
unfoldable pub strip_prefix : List ℕ → List ℕ → Option (List ℕ)
strip_prefix [] s = some s
strip_prefix (p ∷ pat) [] = none
strip_prefix (p ∷ pat) (c ∷ s) = let rest = strip_prefix pat s in if c == p then rest else none

-- What `s.split_once(pat)` gives behind the first occurrence of a text.
unfoldable pub after_once : List ℕ → List ℕ → Option (List ℕ)
unfolding strip_prefix
after_once pat [] = strip_prefix pat []
after_once pat (c ∷ s) = elim (strip_prefix pat (c ∷ s)) [
  | some rest ↦ some rest
  | none ↦ after_once pat s
]

-- `{}` of a `u8`: decimal, with no leading zeros.
unfoldable pub show_u8 : ℕ → List ℕ
show_u8 n =
    if ltb n 10
    then (b'0' + n) ∷ []
    else if ltb n 100
    then (b'0' + n / 10) ∷ (b'0' + n % 10) ∷ []
    else (b'0' + n / 100) ∷ (b'0' + n / 10 % 10) ∷ (b'0' + n % 10) ∷ []

-- The digits of `parse::<u8>()`: `checked_mul` and `checked_add` fail above 255.
unfoldable pub parse_digits : List ℕ → ℕ → Option ℕ
parse_digits [] n = some n
parse_digits (c ∷ s) n =
    let next = n * 10 + (c - b'0') in
    let rest = parse_digits s next in
    if ltb c b'0' || ltb b'9' c then none else if ltb 255 next then none else rest

-- `parse::<u8>()`: no digit is an error, and one leading plus sign is accepted.
unfoldable pub parse_u8 : List ℕ → Option ℕ
unfolding parse_digits
parse_u8 [] = none
parse_u8 (c ∷ []) = parse_digits (c ∷ []) 0
parse_u8 (c ∷ d ∷ s) = if c == b'+' then parse_digits (d ∷ s) 0 else parse_digits (c ∷ d ∷ s) 0

abbrev pub IsDigit : ℕ → Type 0
IsDigit c = (b'0' ≤ c) × (c ≤ b'9')

abbrev pub Lacks : ℕ → List ℕ → Type 0
Lacks b = All (λ c. c ≢ b)

pub show_u8-IsDigit : (n : ℕ) → n < 2 ^ 8 → All IsDigit (show_u8 n)
unfolding show_u8
show_u8-IsDigit n h = ground arith

pub IsDigit-Lacks : (b : ℕ) (s : List ℕ) → ¬ IsDigit b → All IsDigit s → Lacks b s
IsDigit-Lacks b [] h d = tt
IsDigit-Lacks b (c ∷ s) h (hc, hs) = (λ e. h (rw e at hc), IsDigit-Lacks b s h hs)

-- A printed byte is parsed back.
pub parse_u8-show_u8 : (n : ℕ) → n < 2 ^ 8 → parse_u8 (show_u8 n) ≡ some n
unfolding parse_u8 show_u8
parse_u8-show_u8 n h = ground arith

pub split_once-append :
    (sep : ℕ) (l r : List ℕ) → Lacks sep l → split_once sep (l ++ sep ∷ r) ≡ some (l, r)
unfolding split_once
split_once-append sep [] r h = ground arith
split_once-append sep (c ∷ l) r h = ground (arith, split_once-append sep l r h.1)

pub split_once-none : (sep : ℕ) (s : List ℕ) → Lacks sep s → split_once sep s ≡ none
unfolding split_once
split_once-none sep [] h = refl
split_once-none sep (c ∷ s) h = ground (arith, split_once-none sep s h.1)

-- A text that lacks a pattern's first byte lacks the pattern.
pub after_once-none : (p : ℕ) (pat s : List ℕ) → Lacks p s → after_once (p ∷ pat) s ≡ none
unfolding after_once
after_once-none p pat [] h = refl
after_once-none p pat (c ∷ s) h = ground (arith, after_once-none p pat s h.1)

-- Inversion of a chain of fallible steps.
pub >>=-eq-some {ℓ κ} :
    {A : Type ℓ} {B : Type κ} (first : Option A) (next : A → Option B) {v : B}
    → (first >>= next) ≡ some v
    → (u : A) × (first ≡ some u) × (next u ≡ some v)
>>=-eq-some (some u) next e = (u, refl, e)
>>=-eq-some none next e = absurd (ground arith)
