-- ===== src/Prelude/Texts.antt =====
-- Texts in parts, as `split` makes them.
use Prim.Native.Nat.{ℕ}
use Prim.Native.Char.{code}
use Prim.Native.String.{String}
use text.Mathlib.Text.{◌==◌ as text_eq}
use text.Mathlib.TextEquality.{eq_iff}
use mathlib.Core.Path.{◌≡◌, refl, ap}
use mathlib.Core.Logic.{inl, inr}
use mathlib.Core.Bool.{Bool, true, false, not, ◌||◌}
use mathlib.Core.Option.{Option, none, some}
use native.Mathlib.Omega.{arith}
use dispatch_api.Prelude.Tests.{◌==◌, if◌then◌else◌, Bool-cases}

abbrev pub colon : ℕ
colon = 58

-- The first part of `text.split(separator)`, and what follows its separator, if there is one.
abbrev pub first_part : ℕ → String → String
first_part separator String.[] = String.[]
first_part separator (String.◌∷◌ c s) =
    let rest = first_part separator s in
    if code c == separator then String.[] else String.◌∷◌ c rest

abbrev pub after_first : ℕ → String → Option String
after_first separator String.[] = none
after_first separator (String.◌∷◌ c s) =
    let rest = after_first separator s in if code c == separator then some s else rest

abbrev pub has_colon : String → Bool
has_colon String.[] = false
has_colon (String.◌∷◌ c s) = code c == colon || has_colon s

-- A text, a colon and a text.
abbrev pub joined : String → String → String
joined String.[] p = String.◌∷◌ ":" p
joined (String.◌∷◌ c s) p = String.◌∷◌ c (joined s p)

pub first_part-joined : (u p : String) → has_colon u ≡ false → first_part colon (joined u p) ≡ u
first_part-joined String.[] p h = refl
first_part-joined (String.◌∷◌ c s) p h = ground (arith, first_part-joined s p)

pub after_first-joined :
    (u p : String) → has_colon u ≡ false → after_first colon (joined u p) ≡ some p
after_first-joined String.[] p h = refl
after_first-joined (String.◌∷◌ c s) p h = ground (arith, after_first-joined s p)

pub first_part_whole : (s : String) → has_colon s ≡ false → first_part colon s ≡ s
first_part_whole String.[] h = refl
first_part_whole (String.◌∷◌ c s) h = ground (arith, first_part_whole s)

pub has_colon-first_part : (s : String) → has_colon (first_part colon s) ≡ false
has_colon-first_part String.[] = refl
has_colon-first_part (String.◌∷◌ c s) = elim (Bool-cases (code c == colon)) [
  | inl stop ↦ rw stop refl
  | inr go ↦ rw (go, go, has_colon-first_part s) refl
]

pub text_eq_refl : (s : String) → text_eq s s ≡ true
text_eq_refl s = (eq_iff s s).1 refl

-- A text is its own first part exactly if it has no colon.
pub first_part_iff : (s : String) → text_eq (first_part colon s) s ≡ not (has_colon s)
first_part_iff s = elim (Bool-cases (has_colon s)) [
  | inl with_colon ↦ elim (Bool-cases (text_eq (first_part colon s) s)) [
    | inl same ↦
        let e = (eq_iff (first_part colon s) s).0 same in
        absurd (ground (arith, has_colon-first_part s, ap has_colon e))
    | inr other ↦ ground arith
  ]
  | inr without ↦ rw (first_part_whole s without, without) (text_eq_refl s)
]
