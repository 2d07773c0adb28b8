-- ===== src/Data/Update/Text/Grammar.antt =====
-- data/src/update.rs: the texts that `from_str` accepts, and what they are read as.
use mathlib.Core.Path.{subst}
use flip_flop_protocol.Common.{
  ℕ, ◌≡◌, ◌≢◌, ◌↔◌, ◌⊎◌, refl, sym, ap, ◌∙◌, arith, inl, inr, Option-cases, Bool-cases, ◌==◌,
  Option, none, some, List, [], ◌∷◌, ◌++◌, drop, append-nil,
}
use flip_flop_protocol.Common.Text.{
  codes, >>=-eq-some, split_once, after_once, parse_u8, Lacks, split_once-append,
}
use flip_flop_protocol.Data.Update.{PreRelease, alpha, beta, Version}
use flip_flop_protocol.Data.Update.Text.{drop_build, split_pre, parse_pre, parse_tail, from_str}
use flip_flop_protocol.Data.Update.Text.RoundTrip.{
  drop_build-append, split_pre-append, parse_tail_parts,
}

-- What stands behind the dash: the number behind the first `alpha.`, else that behind the first
-- `beta.`, else anything for no pre-release.
abbrev pub IsPre : Option PreRelease → List ℕ → Type 0
IsPre none r = (after_once (codes "alpha.") r ≡ none) × (after_once (codes "beta.") r ≡ none)
IsPre (some (alpha n)) r =
    (t : List ℕ) × (after_once (codes "alpha.") r ≡ some t) × (parse_u8 t ≡ some n)
IsPre (some (beta n)) r =
    (after_once (codes "alpha.") r ≡ none)
    × ((t : List ℕ) × (after_once (codes "beta.") r ≡ some t) × (parse_u8 t ≡ some n))

-- Nothing, or a text behind a separator.
abbrev pub IsSuffix : ℕ → List ℕ → Type 0
IsSuffix sep t = (t ≡ []) ⊎ ((r : List ℕ) × (t ≡ sep ∷ r))

-- Three numbers with dots between them, a pre-release behind a dash, and a build identifier behind
-- a plus sign.
pub record IsText (s : List ℕ) (v : Version) : Type 0 where
  pub major : List ℕ
  pub minor : List ℕ
  pub patch : List ℕ
  pub dash : List ℕ
  pub build : List ℕ
  pub parts : s ≡ major ++ b'.' ∷ (minor ++ b'.' ∷ ((patch ++ dash) ++ build))
  pub no_dot : Lacks b'.' major
  pub no_dot' : Lacks b'.' minor
  pub no_dash : Lacks b'-' patch
  pub no_plus : Lacks b'+' (patch ++ dash)
  pub dash_suffix : IsSuffix b'-' dash
  pub build_suffix : IsSuffix b'+' build
  pub is_major : parse_u8 major ≡ some v.major
  pub is_minor : parse_u8 minor ≡ some v.minor
  pub is_patch : parse_u8 patch ≡ some v.patch
  pub is_pre : IsPre v.pre (drop 1 dash)

split_once-eq-some :
    (sep : ℕ) (s l r : List ℕ) → split_once sep s ≡ some (l, r) → (s ≡ l ++ sep ∷ r) × Lacks sep l
unfolding split_once
split_once-eq-some sep [] l r e = absurd (ground arith)
split_once-eq-some sep (c ∷ s) l r e = elim (Bool-cases (c == sep)) [
  | inl t ↦
      let front : l ≡ [] = ground arith in
      let back : r ≡ s = ground arith in
      let same : c ≡ sep = ground arith in rw (front, back, same) (refl, tt)
  | inr t ↦
      let ((l', r'), found, at) =
        >>=-eq-some (split_once sep s) (λ (l', r'). some (c ∷ l', r')) (rw t at e) in
      let (parts, lacks) = split_once-eq-some sep s l' r' found in
      let front : l ≡ c ∷ l' = ground arith in
      let back : r ≡ r' = ground arith in
      let other : c ≢ sep = ground arith in rw (front, back) (ap (c ∷◌) parts, (other, lacks))
]

split_once-eq-none : (sep : ℕ) (s : List ℕ) → split_once sep s ≡ none → Lacks sep s
unfolding split_once
split_once-eq-none sep [] e = tt
split_once-eq-none sep (c ∷ s) e = ground (arith, split_once-eq-none sep s)

-- The text in front of the build identifier, and the identifier with its plus sign.
drop_build-parts :
    (s : List ℕ)
    → (build : List ℕ) × (s ≡ drop_build s ++ build)
      × IsSuffix b'+' build
      × Lacks b'+' (drop_build s)
unfolding drop_build
drop_build-parts s = elim (Option-cases (split_once b'+' s)) [
  | inr ((l, r), e) ↦
      let (parts, lacks) = split_once-eq-some b'+' s l r e in
      rw (e, drop_build) (b'+' ∷ r, parts, inr (r, refl), lacks)
  | inl e ↦ rw (e, drop_build) ([], sym (append-nil s), inl refl, split_once-eq-none b'+' s e)
]

split_pre-parts :
    (s : List ℕ)
    → (dash : List ℕ) × (s ≡ (split_pre s).0 ++ dash)
      × IsSuffix b'-' dash
      × ((split_pre s).1 ≡ drop 1 dash)
      × Lacks b'-' (split_pre s).0
unfolding split_pre
split_pre-parts s = elim (Option-cases (split_once b'-' s)) [
  | inr ((l, r), e) ↦
      let (parts, lacks) = split_once-eq-some b'-' s l r e in
      rw (e, split_pre) (b'-' ∷ r, parts, inr (r, refl), refl, lacks)
  | inl e ↦ rw (e, split_pre) ([], sym (append-nil s), inl refl, refl, split_once-eq-none b'-' s e)
]

parse_pre-IsPre : (r : List ℕ) (pre : Option PreRelease) → parse_pre r ≡ some pre → IsPre pre r
unfolding parse_pre
parse_pre-IsPre r pre e = elim (Option-cases (after_once (codes "alpha.") r)) [
  | inr (t, f) ↦
      let (n, g, at) =
        >>=-eq-some (parse_u8 t) (λ n. some (some (alpha n))) (rw (f, parse_pre) at e) in
      let same : pre ≡ some (alpha n) = ground arith in rw same (t, f, g)
  | inl f ↦ elim (Option-cases (after_once (codes "beta.") r)) [
    | inr (t, f') ↦
        let (n, g, at) =
          >>=-eq-some (parse_u8 t) (λ n. some (some (beta n))) (rw (f, f', parse_pre) at e) in
        let same : pre ≡ some (beta n) = ground arith in rw same (f, (t, f', g))
    | inl f' ↦ let same : pre ≡ none = ground arith in rw same (f, f')
  ]
]

IsPre-parse_pre : (r : List ℕ) (pre : Option PreRelease) → IsPre pre r → parse_pre r ≡ some pre
unfolding parse_pre
IsPre-parse_pre r none (f, f') = rw (parse_pre, f, f') refl
IsPre-parse_pre r (some (alpha n)) (t, f, g) = rw (parse_pre, f, g) refl
IsPre-parse_pre r (some (beta n)) (f, (t, f', g)) = rw (parse_pre, f, f', g) refl

IsSuffix-drop_build :
    (s build : List ℕ) → Lacks b'+' s → IsSuffix b'+' build → drop_build (s ++ build) ≡ s
IsSuffix-drop_build s build h (inl e) = rw (e, append-nil s) ((drop_build-append s [] h).0)
IsSuffix-drop_build s build h (inr (r, e)) = rw e ((drop_build-append s r h).1)

IsSuffix-split_pre :
    (l dash : List ℕ) → Lacks b'-' l → IsSuffix b'-' dash → split_pre (l ++ dash) ≡ (l, drop 1 dash)
IsSuffix-split_pre l dash h (inl e) = rw (e, append-nil l) ((split_pre-append l [] h).0)
IsSuffix-split_pre l dash h (inr (r, e)) = rw e ((split_pre-append l r h).1)

from_str-parts :
    (l l' s : List ℕ) (major minor : ℕ)
    → Lacks b'.' l
    → Lacks b'.' l'
    → parse_u8 l ≡ some major
    → parse_u8 l' ≡ some minor
    → from_str (l ++ b'.' ∷ (l' ++ b'.' ∷ s)) ≡ parse_tail major minor s
unfolding from_str
from_str-parts l l' s major minor h h' p p' =
    rw (split_once-append b'.' l (l' ++ b'.' ∷ s) h, p, split_once-append b'.' l' s h', p')

IsText-from_str : (s : List ℕ) (v : Version) → IsText s v → from_str s ≡ some v
IsText-from_str s v h =
    rw
      (
        h.parts,
        from_str-parts h.major h.minor ((h.patch ++ h.dash) ++ h.build) v.major v.minor h.no_dot
            h.no_dot' h.is_major h.is_minor,
      )
      (parse_tail_parts v.major v.minor ((h.patch ++ h.dash) ++ h.build) (h.patch ++ h.dash) h.patch
        (drop 1 h.dash) v.patch v.pre
        (IsSuffix-drop_build (h.patch ++ h.dash) h.build h.no_plus h.build_suffix)
        (IsSuffix-split_pre h.patch h.dash h.no_dash h.dash_suffix) h.is_patch
        (IsPre-parse_pre (drop 1 h.dash) v.pre h.is_pre))

parse_tail-eq-some :
    (major minor : ℕ) (s : List ℕ) (v : Version)
    → parse_tail major minor s ≡ some v
    → (v.major ≡ major)
      × (v.minor ≡ minor)
      × (parse_u8 (split_pre (drop_build s)).0 ≡ some v.patch)
      × (parse_pre (split_pre (drop_build s)).1 ≡ some v.pre)
unfolding parse_tail
parse_tail-eq-some major minor s v e =
    let (l, r) = split_pre (drop_build s) in
    let (patch, p, e') = >>=-eq-some (parse_u8 l) _ e in
    let (pre, q, e'') = >>=-eq-some (parse_pre r) _ e' in
    let same : v ≡ record { major = major; minor = minor; patch = patch; pre = pre } =
      ground arith in
    rw same (refl, refl, p, q)

from_str-eq-some : (s : List ℕ) (v : Version) → from_str s ≡ some v → IsText s v
unfolding from_str
from_str-eq-some s v e =
    let ((l, r), e1, f1) = >>=-eq-some (split_once b'.' s) _ e in
    let (major, e2, f2) = >>=-eq-some (parse_u8 l) _ f1 in
    let ((l', r'), e3, f3) = >>=-eq-some (split_once b'.' r) _ f2 in
    let (minor, e4, f4) = >>=-eq-some (parse_u8 l') _ f3 in
    let (same, same', p, q) = parse_tail-eq-some major minor r' v f4 in
    let (front, lacks) = split_once-eq-some b'.' s l r e1 in
    let (front', lacks') = split_once-eq-some b'.' r l' r' e3 in
    let (build, tail, build_suffix, no_plus) = drop_build-parts r' in
    let (dash, tail', dash_suffix, pre, no_dash) = split_pre-parts (drop_build r') in
    record {
      major = l;
      minor = l';
      patch = (split_pre (drop_build r')).0;
      dash = dash;
      build = build;
      parts =
          front
          ∙ ap (λ t. l ++ b'.' ∷ t)
              (front' ∙ ap (λ t. l' ++ b'.' ∷ t) (tail ∙ ap (◌++ build) tail'));
      no_dot = lacks;
      no_dot' = lacks';
      no_dash = no_dash;
      no_plus = subst (Lacks b'+') tail' no_plus;
      dash_suffix = dash_suffix;
      build_suffix = build_suffix;
      is_major = e2 ∙ ap some (sym same);
      is_minor = e4 ∙ ap some (sym same');
      is_patch = p;
      is_pre = parse_pre-IsPre (drop 1 dash) v.pre (subst (λ t. parse_pre t ≡ some v.pre) pre q);
    }

-- A text is read as a version exactly if it is three numbers that fit a byte, as Rust's `parse`
-- reads them, with dots between them, then, if anything, a dash with a pre-release behind it,
-- then, if anything, a plus sign with a build identifier behind it. The numbers are the version's,
-- in this order, and so is the pre-release: the number behind the first `alpha.`, or, where that
-- does not occur, behind the first `beta.`, or none where neither occurs.
pub from_str-IsText : (s : List ℕ) (v : Version) → (from_str s ≡ some v) ↔ IsText s v
from_str-IsText s v = (from_str-eq-some s v, IsText-from_str s v)
