-- ===== src/Tests/Codec.antt =====
-- A cursor text for the runs: as many letters as the time says, and one.
use Prim.Native.String.{String, [], ◌∷◌}
use text.Mathlib.Text.{◌==◌ as text_eq}
use text.Mathlib.TextEquality.{eq_iff}
use dispatch_api.Prelude.{
  ℕ, zero, suc, ◌-◌, ◌≡◌, refl, ap, Option, some, none, Bool-cases, inl, inr, truthy, arith,
}
use dispatch_api.Dtos.{CursorParams}

abbrev pub encode : ℕ → String
encode zero = "x" ∷ []
encode (suc t) = "x" ∷ encode t

abbrev letters : String → ℕ
letters [] = 0
letters (c ∷ s) = suc (letters s)

abbrev pub decode : String → Option CursorParams
decode s = some (record { starting_after = some (letters s - 1); limit = none })

letters-encode : (t : ℕ) → letters (encode t) ≡ suc t
letters-encode zero = refl
letters-encode (suc t) = ap suc (letters-encode t)

pub decode-encode :
    (t : ℕ) → decode (encode t) ≡ some (record { starting_after = some t; limit = none })
decode-encode t = let e : letters (encode t) - 1 ≡ t = omega (arith, letters-encode t) in rw e refl

pub encode-truthy : (t : ℕ) → truthy (some (encode t)) ≡ some (encode t)
encode-truthy t = elim (Bool-cases (text_eq (encode t) "")) [
  | inl empty ↦
      let none_left : letters (encode t) ≡ 0 = ap letters ((eq_iff (encode t) "").0 empty) in
      absurd (omega (arith, none_left, letters-encode t))
  | inr full ↦ rw full refl
]
