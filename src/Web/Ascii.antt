-- ===== src/Web/Ascii.antt =====
-- `Buffer.toString('ascii')`, which src/middleware/basic-auth.middleware.ts decodes with: the low seven bits of each byte.
use Prim.Native.Nat.{compare, Ordering, ◌%◌}
use Prim.Native.Char.{Char, char, code, IsScalar}
use Prim.Native.String.{String}
use text.Mathlib.TextEquality.{Char-path}
use dispatch_api.Prelude.{
  ℕ, ◌≡◌, refl, ap₂, ◌&&◌, Bool, true, Bool-cases, inl, inr, some, List, [], ◌∷◌, ltb, ◌==◌, joined,
  first_part, after_first, arith,
}

pub is_scalar : (n : ℕ) → ltb n 128 ≡ true → IsScalar n
is_scalar n small = let e : compare n 55296 ≡ Ordering.lt = ground arith in rw e tt

pub below_128 : (b : ℕ) → ltb (b % 128) 128 ≡ true
below_128 b = ground arith

abbrev pub ascii : ℕ → Char
ascii b = char (b % 128) (is_scalar (b % 128) (below_128 b))

abbrev pub ascii_text : List ℕ → String
ascii_text [] = String.[]
ascii_text (b ∷ bs) = String.◌∷◌ (ascii b) (ascii_text bs)

-- The numbers of the characters, which are the bytes of a text that is all ASCII.
abbrev pub codes : String → List ℕ
codes String.[] = []
codes (String.◌∷◌ c s) = code c ∷ codes s

abbrev pub is_ascii : String → Bool
is_ascii String.[] = true
is_ascii (String.◌∷◌ c s) = ltb (code c) 128 && is_ascii s

ascii-code : (c : Char) → ltb (code c) 128 ≡ true → ascii (code c) ≡ c
ascii-code c small = Char-path (ascii (code c)) c (ground arith)

pub ascii_text-codes : (s : String) → is_ascii s ≡ true → ascii_text (codes s) ≡ s
ascii_text-codes String.[] h = refl
ascii_text-codes (String.◌∷◌ c s) h =
    ap₂ String.◌∷◌ (ascii-code c (ground arith)) (ascii_text-codes s (ground arith))

pub ascii_text-is_ascii : (bs : List ℕ) → is_ascii (ascii_text bs) ≡ true
ascii_text-is_ascii [] = refl
ascii_text-is_ascii (b ∷ bs) = ground (arith, below_128 b, ascii_text-is_ascii bs)

pub first_part-is_ascii :
    (k : ℕ) (s : String) → is_ascii s ≡ true → is_ascii (first_part k s) ≡ true
first_part-is_ascii k String.[] h = refl
first_part-is_ascii k (String.◌∷◌ c s) h = elim (Bool-cases (code c == k)) [
  | inl stop ↦ rw stop refl
  | inr go ↦ rw go (ground (arith, first_part-is_ascii k s))
]

pub after_first-is_ascii :
    (k : ℕ) (s t : String) → is_ascii s ≡ true → after_first k s ≡ some t → is_ascii t ≡ true
after_first-is_ascii k String.[] t h e = absurd (ground arith)
after_first-is_ascii k (String.◌∷◌ c s) t h e = ground (arith, after_first-is_ascii k s t)

-- The first half of a joined text is ASCII if the whole is, and so is the second.
pub joined-is_ascii : (s t : String) → is_ascii (joined s t) ≡ is_ascii s && is_ascii t
joined-is_ascii String.[] t = ground arith
joined-is_ascii (String.◌∷◌ c s) t = ground (arith, joined-is_ascii s t)
