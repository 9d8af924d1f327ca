-- ===== src/Prelude/Distinct.antt =====
-- Rows with a primary key: no two have one id.
use Prim.Native.Nat.{ℕ}
use mathlib.Core.Path.{◌≡◌, refl}
use mathlib.Core.Bool.{Bool, true, false, not, ◌&&◌, ◌||◌}
use mathlib.Core.Option.{none, some}
use mathlib.Core.List.{List, [], ◌∷◌}
use native.Mathlib.Omega.{arith}
use dispatch_api.Prelude.Tests.{◌==◌, if◌then◌else◌}
use dispatch_api.Prelude.Lists.{find, exists, keep, modify_where, upsert}

module _ {A : Type 0} (id : A → ℕ) where
  abbrev pub id_taken : ℕ → List A → Bool
  id_taken j xs = exists (λ x. id x == j) xs

  abbrev pub distinct : List A → Bool
  distinct [] = true
  distinct (x ∷ xs) = not (id_taken (id x) xs) && distinct xs

  pub id_taken-keep :
      (p : A → Bool) (j : ℕ) (xs : List A) → id_taken j xs ≡ false → id_taken j (keep p xs) ≡ false
  id_taken-keep p j [] h = refl
  id_taken-keep p j (x ∷ xs) h = ground (arith, id_taken-keep p j xs)

  pub distinct-keep :
      (p : A → Bool) (xs : List A) → distinct xs ≡ true → distinct (keep p xs) ≡ true
  distinct-keep p [] h = refl
  distinct-keep p (x ∷ xs) h = ground (arith, id_taken-keep p (id x) xs, distinct-keep p xs)

  id_taken-upsert :
      (r : A) (xs : List A) (j : ℕ)
      → id_taken j (upsert (λ x. id x == id r) r xs) ≡ ((id r == j) || id_taken j xs)
  id_taken-upsert r [] j = ground arith
  id_taken-upsert r (x ∷ xs) j = ground (arith, id_taken-upsert r xs j)

  pub distinct-upsert :
      (r : A) (xs : List A) → distinct xs ≡ true → distinct (upsert (λ x. id x == id r) r xs) ≡ true
  distinct-upsert r [] h = refl
  distinct-upsert r (x ∷ xs) h = ground (arith, id_taken-upsert r xs (id x), distinct-upsert r xs)

  module _ (p : A → Bool) (f : A → A) (same : (x : A) → id (f x) ≡ id x) where
    id_taken-modify_where : (xs : List A) (j : ℕ) → id_taken j (modify_where p f xs) ≡ id_taken j xs
    id_taken-modify_where [] j = refl
    id_taken-modify_where (x ∷ xs) j = ground (arith, same x, id_taken-modify_where xs j)

    pub distinct-modify_where : (xs : List A) → distinct (modify_where p f xs) ≡ distinct xs
    distinct-modify_where [] = refl
    distinct-modify_where (x ∷ xs) =
        ground (arith, same x, id_taken-modify_where xs (id x), distinct-modify_where xs)

  -- A row that is not there is not found among some of the rows.
  pub find-absent : (j : ℕ) (xs : List A) → id_taken j xs ≡ false → find (λ x. id x == j) xs ≡ none
  find-absent j [] h = refl
  find-absent j (x ∷ xs) h = ground (arith, find-absent j xs)

  pub find-keep-distinct :
      (p : A → Bool) (j : ℕ) (xs : List A)
      → distinct xs ≡ true
      → find (λ x. id x == j) (keep p xs)
        ≡ elim (find (λ x. id x == j) xs) [ none ↦ none | some x ↦ (if p x then some x else none) ]
  find-keep-distinct p j [] h = refl
  find-keep-distinct p j (x ∷ xs) h = ground (
    arith,
    find-keep-distinct p j xs,
    id_taken-keep p j xs,
    find-absent j (keep p xs),
    find-absent j xs,
  )
