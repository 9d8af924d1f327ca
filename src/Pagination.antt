-- ===== src/Pagination.antt =====
-- Cursor pagination, as the repositories' `filter` does it (item.repository.ts, order.repository.ts,
-- user.repository.ts): newest first, one row more than the page is fetched to see if there are more.
pub mod Newest
pub mod Pages
pub mod Unordered
pub mod Cursor
pub mod Next
use dispatch_api.Prelude.Int.{ℤ, pos, negsuc, ltb_ℤ}
use dispatch_api.Prelude.{
  ℕ, ◌+◌, ◌-◌, Bool, true, false, Option, none, some, String, List, [], ◌∷◌, ltb, min, length, take,
  keep, map, if◌then◌else◌,
}
use dispatch_api.Dtos.{CursorParams, PagCursorResult}
use dispatch_api.World.{Env, M, Void, raise_if, negative_limit}

abbrev pub default_page_size : ℕ
default_page_size = 20

abbrev pub max_page_size : ℕ
max_page_size = 100

-- `cursor?.limit ? Math.min(cursor.limit, MAX_PAGE_SIZE) : DEFAULT_PAGE_SIZE`: a limit of 0 is none.
abbrev pub limit_of : Option ℤ → ℤ
limit_of none = pos default_page_size
limit_of (some (pos n)) = pos (if ltb 0 n then min n max_page_size else default_page_size)
limit_of (some (negsuc n)) = negsuc n

abbrev pub cursor_limit : Option CursorParams → Option ℤ
cursor_limit none = none
cursor_limit (some c) = c.limit

abbrev pub cursor_start : Option CursorParams → Option ℕ
cursor_start none = none
cursor_start (some c) = c.starting_after

-- `cursor?.limit || 20` of the notifications, the payments and the customers, which have no upper bound
abbrev pub uncapped_limit : Option ℤ → ℤ
uncapped_limit none = pos default_page_size
uncapped_limit (some (pos n)) = pos (if ltb 0 n then n else default_page_size)
uncapped_limit (some (negsuc n)) = negsuc n

-- `take(limit + 1)`: the limit -1 asks for 0 rows, for which TypeORM writes no LIMIT.
abbrev pub fetched {ℓ} : {A : Type ℓ} → ℤ → List A → List A
fetched (pos n) rows = take (n + 1) rows
fetched (negsuc n) rows = rows

-- A LIMIT below 0, that of a limit below -1, is an error of the database.
abbrev pub is_refused : ℤ → Bool
is_refused (pos n) = false
is_refused (negsuc n) = ltb 0 n

abbrev pub require_limit : ℤ → M Void
require_limit limit = raise_if (is_refused limit) negative_limit

-- `rows.slice(0, limit)`, which counts from the end if the limit is negative; `slice(0, -1)` of the payments
-- is the same on what is fetched there.
abbrev pub slice {ℓ} : {A : Type ℓ} → ℤ → List A → List A
slice (pos n) rows = take n rows
slice (negsuc n) rows = take (length rows - (n + 1)) rows

-- The condition on `createdAt` that the cursor adds.
abbrev pub is_after_cursor : Option CursorParams → ℕ → Bool
is_after_cursor none t = true
is_after_cursor (some c) t = elim c.starting_after [ none ↦ true | some s ↦ ltb t s ]

module _ {A : Type 0} (created_at : A → ℕ) where
  -- `items.at(-1)`
  unfoldable pub last : List A → Option A
  last [] = none
  last (x ∷ xs) = let rest = last xs in elim xs [ [] ↦ some x | _ ∷ _ ↦ rest ]

  abbrev pub time_of : Option A → Option ℕ
  time_of none = none
  time_of (some a) = some (created_at a)

  -- What is done with the rows that the query gives, whose number is compared with the limit.
  unfoldable pub page_of : ℤ → List A → PagCursorResult A
  unfolding last
  page_of limit rows =
      let has_more = ltb_ℤ limit (pos (length rows)) in
      let items = if has_more then slice limit rows else rows in
      record {
        items = items;
        next_cursor = if has_more then time_of (last items) else none;
        has_more = has_more;
      }

  -- `filter` on the rows that pass the other conditions, in the order of the query, with a limit that
  -- is not refused.
  unfoldable pub filter_page : Option CursorParams → List A → PagCursorResult A
  unfolding page_of
  filter_page cursor sorted =
      let limit = limit_of (cursor_limit cursor) in
      page_of limit (fetched limit (keep (λ a. is_after_cursor cursor (created_at a)) sorted))

-- What a service does with a page: the rows are mapped, `nextCursor` and `hasMore` stay.
abbrev pub map_page : {A B : Type 0} → (A → B) → PagCursorResult A → PagCursorResult B
map_page f page = record {
  items = map f page.items;
  next_cursor = page.next_cursor;
  has_more = page.has_more;
}

-- The condition `ILIKE` on a text, if the query has the pattern.
abbrev pub is_like : Env → String → Option String → Bool
is_like env text none = true
is_like env text (some pattern) = env.ilike text pattern
