-- ===== src/Pagination/Unordered.antt =====
-- A table has no order: the listings of the repositories (item.repository.ts, order.repository.ts) give the same
-- page in whatever order the database holds its rows.
use dispatch_api.Prelude.{
  distinct, ℕ, Bool, true, false, ◌≡◌, refl, sym, ap, ◌∙◌, ◌==◌, List, [], ◌∷◌, exists, keep, arith,
  Bool-cases, inl, inr,
}
use dispatch_api.Pagination.Newest.{insert_newest, newest_first}

-- The same rows in another order.
pub data Reordered {A : Type 0} : List A → List A → Type 0 where
  same : (xs : List A) → Reordered xs xs
  under : {xs ys : List A} (x : A) → Reordered xs ys → Reordered (x ∷ xs) (x ∷ ys)
  swap : (x y : A) (xs : List A) → Reordered (x ∷ y ∷ xs) (y ∷ x ∷ xs)
  chain : {xs ys zs : List A} → Reordered xs ys → Reordered ys zs → Reordered xs zs

module _ {A : Type 0} where
  swap-keep :
      (p : A → Bool) (x y : A) (xs : List A) → Reordered (keep p (x ∷ y ∷ xs)) (keep p (y ∷ x ∷ xs))
  swap-keep p x y xs = elim (Bool-cases (p x)) [
    | inl px ↦ elim (Bool-cases (p y)) [
      | inl py ↦ rw (px, py) (swap x y (keep p xs))
      | inr py ↦ rw (px, py) (same (x ∷ keep p xs))
    ]
    | inr px ↦ elim (Bool-cases (p y)) [
      | inl py ↦ rw (px, py) (same (y ∷ keep p xs))
      | inr py ↦ rw (px, py) (same (keep p xs))
    ]
  ]

  under-keep :
      (p : A → Bool) (x : A) (xs ys : List A)
      → Reordered (keep p xs) (keep p ys)
      → Reordered (keep p (x ∷ xs)) (keep p (x ∷ ys))
  under-keep p x xs ys r = elim (Bool-cases (p x)) [ inl px ↦ rw px (under x r) | inr px ↦ rw px r ]

  -- A choice of rows.
  pub keep-Reordered :
      (p : A → Bool) {xs ys : List A} → Reordered xs ys → Reordered (keep p xs) (keep p ys)
  keep-Reordered p (same xs) = same (keep p xs)
  keep-Reordered p (under x r) = under-keep p x _ _ (keep-Reordered p r)
  keep-Reordered p (swap x y xs) = swap-keep p x y xs
  keep-Reordered p (chain r s) = chain (keep-Reordered p r) (keep-Reordered p s)

  exists-Reordered : (p : A → Bool) {xs ys : List A} → Reordered xs ys → exists p xs ≡ exists p ys
  exists-Reordered p (same xs) = refl
  exists-Reordered p (under x r) = ground (arith, exists-Reordered p r)
  exists-Reordered p (swap x y xs) = ground arith
  exists-Reordered p (chain r s) = exists-Reordered p r ∙ exists-Reordered p s

module _ {A : Type 0} (created_at id : A → ℕ) where
  distinct-Reordered : {xs ys : List A} → Reordered xs ys → distinct id xs ≡ distinct id ys
  distinct-Reordered (same xs) = refl
  distinct-Reordered (under x r) =
      ground (arith, exists-Reordered (λ y. id y == id x) r, distinct-Reordered r)
  distinct-Reordered (swap x y xs) = ground arith
  distinct-Reordered (chain r s) = distinct-Reordered r ∙ distinct-Reordered s

  insert_comm :
      (a b : A) (xs : List A)
      → id a == id b ≡ false
      → insert_newest created_at id a (insert_newest created_at id b xs)
        ≡ insert_newest created_at id b (insert_newest created_at id a xs)
  unfolding insert_newest
  insert_comm a b [] apart = ground arith
  insert_comm a b (x ∷ xs) apart = ground (arith, insert_comm a b xs)

  -- The order that the query asks for is the same from whatever order the rows come in.
  pub newest_first-Reordered :
      {xs ys : List A}
      → Reordered xs ys
      → distinct id xs ≡ true
      → newest_first created_at id xs ≡ newest_first created_at id ys
  unfolding newest_first
  newest_first-Reordered (same xs) d = refl
  newest_first-Reordered (under x r) d =
      ap (insert_newest created_at id x) (newest_first-Reordered r (ground arith))
  newest_first-Reordered (swap x y xs) d =
      insert_comm x y (newest_first created_at id xs) (ground arith)
  newest_first-Reordered (chain r s) d =
      newest_first-Reordered r d ∙ newest_first-Reordered s (sym (distinct-Reordered r) ∙ d)
