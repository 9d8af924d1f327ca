-- ===== src/Repository/Reads.antt =====
-- What the reads of src/shared/providers/repositories/base.repository.ts have in common.
use dispatch_api.Prelude.{
  ℕ, ◌≡◌, refl, Bool, true, ◌&&◌, ◌==◌, is_some, Option, List, [], ◌∷◌, find, keep, length,
  distinct, find-absent, ltb, arith,
}
use dispatch_api.Entities.{only_live}
use dispatch_api.Repository.{BaseEntity, is_there, find_all, find_one, find_by_id, count, exists_by}

module _ {A : Type 0} ⦃e : BaseEntity A⦄ where
  -- The row that has an id, removed or not.
  abbrev pub row_at : List A → ℕ → Option A
  row_at rows j = find (λ x. e.id x == j) rows

  module _ (p : A → Bool) where
    find-keep : (rows : List A) → find (λ x. is_there x && p x) rows ≡ find p (keep is_there rows)
    find-keep [] = refl
    find-keep (x ∷ xs) = ground (arith, find-keep xs)

    is_some-find : (rows : List A) → ltb 0 (length (keep p rows)) ≡ is_some (find p rows)
    is_some-find [] = ground arith
    is_some-find (x ∷ xs) = ground (arith, is_some-find xs)

    length-keep :
        (rows : List A)
        → length (keep (λ x. is_there x && p x) rows) ≡ length (keep p (keep is_there rows))
    length-keep [] = refl
    length-keep (x ∷ xs) = ground (arith, length-keep xs)

  pub find_by_id_lem :
      (i : ℕ) (rows : List A)
      → distinct e.id rows ≡ true
      → find_by_id i rows ≡ only_live e.deleted_at (row_at rows i)
  unfolding find_by_id find_one
  find_by_id_lem i [] d = refl
  find_by_id_lem i (x ∷ xs) d = ground (arith, find_by_id_lem i xs, find-absent e.id i xs)

  -- The reads agree on what is there: one row is the first of all that passes the test, the row of an id is that of the
  -- table if it is not removed, some row exists if one is found, and the count is that of all rows that pass.
  pub reads_agree :
      (p : A → Bool) (i : ℕ) (rows : List A)
      → distinct e.id rows ≡ true
      → (find_one p rows ≡ find p (find_all rows))
        × (find_by_id i rows ≡ only_live e.deleted_at (row_at rows i))
        × (exists_by p rows ≡ is_some (find_one p rows))
        × (count p rows ≡ length (keep p (find_all rows)))
  unfolding find_one find_all exists_by count
  reads_agree p i rows d = (
    find-keep p rows,
    find_by_id_lem i rows d,
    is_some-find (λ x. is_there x && p x) rows,
    length-keep p rows,
  )
