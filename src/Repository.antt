-- ===== src/Repository.antt =====
-- src/shared/providers/repositories/base.repository.ts over the columns of src/shared/entities/base.entity.ts: the operations
-- that all repositories have, on the rows of one table as the open transaction sees them.
pub mod Reads
pub mod Tables
use dispatch_api.Prelude.{
  ℕ, ◌≡◌, Bool, true, false, not, ◌&&◌, ◌||◌, ◌==◌, ltb, Option, map_option, List, [], ◌∷◌, find,
  keep, modify_where, upsert, length,
}
use dispatch_api.Entities.{is_live}

-- What the repository uses of an entity: `id`, and the column of the time of its removal.
pub record BaseEntity (A : Type 0) : Type 0 where
  pub id : A → ℕ
  pub deleted_at : A → Option ℕ
  pub mark_deleted : ℕ → A → A
  pub id-mark_deleted : (now : ℕ) (x : A) → id (mark_deleted now x) ≡ id x

abbrev pub member : ℕ → List ℕ → Bool
member i [] = false
member i (j ∷ js) = i == j || member i js

module _ {A : Type 0} ⦃e : BaseEntity A⦄ where
  -- TypeORM leaves out removed rows where it reads, unless it is asked for them.
  abbrev pub is_there : A → Bool
  is_there x = is_live (e.deleted_at x)

  abbrev pub is_row : ℕ → A → Bool
  is_row i x = e.id x == i

  -- BaseRepository.findAll
  unfoldable pub find_all : List A → List A
  find_all rows = keep is_there rows

  -- BaseRepository.findOne
  unfoldable pub find_one : (A → Bool) → List A → Option A
  find_one where_ rows = find (λ x. is_there x && where_ x) rows

  -- BaseRepository.findById
  unfoldable pub find_by_id : ℕ → List A → Option A
  unfolding find_one
  find_by_id id rows = find_one (is_row id) rows

  -- BaseRepository.preload: the row with the data put over it.
  unfoldable pub preload : ℕ → (A → A) → List A → Option A
  unfolding find_by_id
  preload id data_ rows = map_option data_ (find_by_id id rows)

  -- BaseRepository.count
  unfoldable pub count : (A → Bool) → List A → ℕ
  count where_ rows = length (keep (λ x. is_there x && where_ x) rows)

  -- BaseRepository.existsBy
  unfoldable pub exists_by : (A → Bool) → List A → Bool
  unfolding count
  exists_by where_ rows = ltb 0 (count where_ rows)

  -- BaseRepository.save: a row with the id is replaced, removed or not; else one is inserted.
  unfoldable pub save : A → List A → List A
  save entity rows = upsert (is_row (e.id entity)) entity rows

  -- BaseRepository.saveBulk
  unfoldable pub save_bulk : List A → List A → List A
  unfolding save
  save_bulk [] rows = rows
  save_bulk (x ∷ xs) rows = save_bulk xs (save x rows)

  -- BaseRepository.update
  unfoldable pub update : ℕ → (A → A) → List A → List A
  update id data_ rows = modify_where (is_row id) data_ rows

  -- BaseRepository.delete
  unfoldable pub delete : (A → Bool) → List A → List A
  delete criteria rows = keep (λ x. not (criteria x)) rows

  -- BaseRepository.deleteById
  unfoldable pub delete_by_id : ℕ → List A → List A
  delete_by_id id rows = keep (λ x. not (is_row id x)) rows

  -- BaseRepository.deleteBulk: no ids, no request.
  unfoldable pub delete_bulk : List ℕ → List A → List A
  delete_bulk [] rows = rows
  delete_bulk (i ∷ is) rows = keep (λ x. not (member (e.id x) (i ∷ is))) rows

  -- BaseRepository.softDelete
  unfoldable pub soft_delete : ℕ → A → List A → List A
  soft_delete now entity rows = modify_where (is_row (e.id entity)) (e.mark_deleted now) rows
