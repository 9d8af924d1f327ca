-- ===== src/Prelude/Lists.antt =====
-- Lists searched and edited by a Boolean test, measured by native numbers.
use Prim.Native.Nat.{ℕ, zero, suc, ◌+◌, min}
use mathlib.Core.Path.{◌≡◌, refl}
use mathlib.Core.Bool.{Bool, true, false, not}
use mathlib.Core.Option.{Option, none, some}
use mathlib.Core.List.{List, [], ◌∷◌, ◌++◌}
use native.Mathlib.Omega.{arith}
use dispatch_api.Prelude.Tests.{if◌then◌else◌, is_some, map_option, ◌==◌}

module _ {ℓ} {A : Type ℓ} where
  abbrev pub length : List A → ℕ
  length [] = 0
  length (x ∷ xs) = suc (length xs)

  abbrev pub take : ℕ → List A → List A
  take zero xs = []
  take (suc n) [] = []
  take (suc n) (x ∷ xs) = x ∷ take n xs

  abbrev pub drop : ℕ → List A → List A
  drop zero xs = xs
  drop (suc n) [] = []
  drop (suc n) (x ∷ xs) = drop n xs

  -- The first element that passes the test.
  abbrev pub find : (A → Bool) → List A → Option A
  find p [] = none
  find p (x ∷ xs) = if p x then some x else find p xs

  abbrev pub exists : (A → Bool) → List A → Bool
  exists p xs = is_some (find p xs)

  abbrev pub keep : (A → Bool) → List A → List A
  keep p [] = []
  keep p (x ∷ xs) = let rest = keep p xs in if p x then x ∷ rest else rest

  -- `UPDATE … WHERE`.
  abbrev pub modify_where : (A → Bool) → (A → A) → List A → List A
  modify_where p f [] = []
  modify_where p f (x ∷ xs) = (if p x then f x else x) ∷ modify_where p f xs

  -- Replaces the first element that passes the test, or adds one at the end.
  abbrev pub upsert : (A → Bool) → A → List A → List A
  upsert p r [] = r ∷ []
  upsert p r (x ∷ xs) = let rest = upsert p r xs in if p x then r ∷ xs else x ∷ rest

  pub length-append : (xs ys : List A) → length (xs ++ ys) ≡ length xs + length ys
  length-append [] ys = omega arith
  length-append (x ∷ xs) ys = omega (arith, length-append xs ys)

  pub take-append-drop : (n : ℕ) (xs : List A) → take n xs ++ drop n xs ≡ xs
  take-append-drop zero xs = refl
  take-append-drop (suc n) [] = refl
  take-append-drop (suc n) (x ∷ xs) = rw (take-append-drop n xs)

  pub length-take : (n : ℕ) (xs : List A) → length (take n xs) ≡ min n (length xs)
  length-take zero xs = omega arith
  length-take (suc n) [] = omega arith
  length-take (suc n) (x ∷ xs) = omega (arith, length-take n xs)

-- Searches by a key that is a number, after each kind of edit.
module _ {ℓ} {A : Type ℓ} (key : A → ℕ) where
  pub find-upsert :
      (r : A) (xs : List A) (j : ℕ)
      → find (λ x. key x == j) (upsert (λ x. key x == key r) r xs)
        ≡ (if key r == j then some r else find (λ x. key x == j) xs)
  find-upsert r [] j = refl
  find-upsert r (x ∷ xs) j = ground (arith, find-upsert r xs j)

  pub find-modify_where :
      (f : A → A) (xs : List A) (i j : ℕ)
      → ((x : A) → key (f x) ≡ key x)
      → find (λ x. key x == j) (modify_where (λ x. key x == i) f xs)
        ≡ (if i == j then map_option f (find (λ x. key x == j) xs) else find (λ x. key x == j) xs)
  find-modify_where f [] i j same = ground arith
  find-modify_where f (x ∷ xs) i j same = ground (arith, same x, find-modify_where f xs i j same)

  pub find-append :
      (r : A) (xs : List A) (j : ℕ)
      → find (λ x. key x == j) (xs ++ (r ∷ [])) ≡ elim (find (λ x. key x == j) xs) [
        | none ↦ (if key r == j then some r else none)
        | some x ↦ some x
      ]
  find-append r [] j = refl
  find-append r (x ∷ xs) j = ground (arith, find-append r xs j)

  -- What is found has the key that was looked for.
  pub key-find : (xs : List A) (j : ℕ) {r : A} → find (λ x. key x == j) xs ≡ some r → key r ≡ j
  key-find [] j h = absurd (ground arith)
  key-find (x ∷ xs) j {r} h = ground (arith, key-find xs j {r = r})

-- Searches after an edit that is about other elements, or about all that are searched for.
module _ {ℓ} {A : Type ℓ} (p q : A → Bool) where
  pub find-upsert_other :
      (e : A) (es : List A)
      → ((x : A) → p x ≡ true → q x ≡ false)
      → q e ≡ false
      → find q (upsert p e es) ≡ find q es
  find-upsert_other e [] apart new = ground arith
  find-upsert_other e (x ∷ es) apart new = ground (arith, apart x, find-upsert_other e es apart new)

  pub find-upsert_same :
      (e : A) (es : List A)
      → ((x : A) → q x ≡ true → p x ≡ true)
      → q e ≡ true
      → find q (upsert p e es) ≡ some e
  find-upsert_same e [] within new = ground arith
  find-upsert_same e (x ∷ es) within new =
      ground (arith, within x, find-upsert_same e es within new)

  pub find-keep_other :
      (es : List A)
      → ((x : A) → p x ≡ true → q x ≡ false)
      → find q (keep (λ x. not (p x)) es) ≡ find q es
  find-keep_other [] apart = refl
  find-keep_other (x ∷ es) apart = ground (arith, apart x, find-keep_other es apart)

  pub find-keep-none :
      (es : List A) → ((x : A) → q x ≡ true → p x ≡ true) → find q (keep (λ x. not (p x)) es) ≡ none
  find-keep-none [] within = refl
  find-keep-none (x ∷ es) within = ground (arith, within x, find-keep-none es within)

  pub exists_weaken :
      (es : List A) → ((x : A) → p x ≡ true → q x ≡ true) → exists p es ≡ true → exists q es ≡ true
  exists_weaken [] within h = h
  exists_weaken (x ∷ es) within h = ground (arith, within x, exists_weaken es within)

module _ {ℓ} {A : Type ℓ} (p : A → Bool) where
  pub exists-append :
      (es : List A) (e : A) → exists p (es ++ (e ∷ [])) ≡ (if p e then true else exists p es)
  exists-append [] e = ground arith
  exists-append (x ∷ es) e = ground (arith, exists-append es e)
