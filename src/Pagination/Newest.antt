-- ===== src/Pagination/Newest.antt =====
-- The order of the rows of a listing: `orderBy(createdAt, 'DESC').addOrderBy(id, 'DESC')` of the
-- repositories (item.repository.ts, order.repository.ts).
use dispatch_api.Prelude.{
  ℕ, Bool, false, ◌≡◌, refl, ◌&&◌, ◌||◌, ◌==◌, ltb, List, [], ◌∷◌, exists, keep, take, arith,
  if◌then◌else◌, suc, zero,
}

module _ {A : Type 0} (created_at id : A → ℕ) where
  abbrev pub is_newer : A → A → Bool
  is_newer a b =
      ltb (created_at b) (created_at a) || (created_at a == created_at b && ltb (id b) (id a))

  unfoldable pub insert_newest : A → List A → List A
  insert_newest a [] = a ∷ []
  insert_newest a (b ∷ bs) =
      let rest = insert_newest a bs in if is_newer a b then a ∷ b ∷ bs else b ∷ rest

  unfoldable pub newest_first : List A → List A
  unfolding insert_newest
  newest_first [] = []
  newest_first (a ∷ xs) = insert_newest a (newest_first xs)

  exists-insert_newest :
      (p : A → Bool) (a : A) (xs : List A)
      → p a ≡ false
      → exists p xs ≡ false
      → exists p (insert_newest a xs) ≡ false
  unfolding insert_newest
  exists-insert_newest p a [] head rest = ground arith
  exists-insert_newest p a (b ∷ bs) head rest = ground (arith, exists-insert_newest p a bs)

  -- Sorting brings in no row.
  pub exists-newest_first :
      (p : A → Bool) (xs : List A) → exists p xs ≡ false → exists p (newest_first xs) ≡ false
  unfolding newest_first
  exists-newest_first p [] h = refl
  exists-newest_first p (a ∷ xs) h =
      ground (arith, exists-newest_first p xs, exists-insert_newest p a (newest_first xs))

-- Nor does a choice of rows.
module _ {A : Type 0} where
  pub exists-keep :
      (p q : A → Bool) (xs : List A) → exists p xs ≡ false → exists p (keep q xs) ≡ false
  exists-keep p q [] h = refl
  exists-keep p q (a ∷ xs) h = ground (arith, exists-keep p q xs)

  pub exists-take :
      (p : A → Bool) (n : ℕ) (xs : List A) → exists p xs ≡ false → exists p (take n xs) ≡ false
  exists-take p zero xs h = refl
  exists-take p (suc n) [] h = refl
  exists-take p (suc n) (a ∷ xs) h = ground (arith, exists-take p n xs)
