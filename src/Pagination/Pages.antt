-- ===== src/Pagination/Pages.antt =====
-- The pages of the repositories' `filter`.
use dispatch_api.Prelude.Int.{ℤ, pos, negsuc, ltb_ℤ}
use dispatch_api.Prelude.{
  ◌-◌, min, true, ℕ, zero, suc, Bool-cases, inl, inr, ◌+◌, ◌≤◌, ◌≡◌, refl, false, Option, none,
  some, List, [], ◌∷◌, ltb, length, length-take, take, keep, arith, if◌then◌else◌,
}
use dispatch_api.Dtos.{CursorParams}
use dispatch_api.Pagination.{
  limit_of, cursor_limit, is_after_cursor, last, time_of, page_of, default_page_size, fetched,
  slice, is_refused, filter_page, max_page_size,
}

pub ltb-pos : (a b : ℕ) → ltb_ℤ (pos a) (pos b) ≡ ltb a b
ltb-pos a b = ground arith

negative-ltb : (n m : ℕ) → ltb_ℤ (negsuc n) (pos m) ≡ true
negative-ltb n m = ground arith

one_more : (n : ℕ) → n + 1 ≡ suc n
one_more n = omega arith

module _ {ℓ} {A : Type ℓ} where
  take-take : (n : ℕ) (xs : List A) → take n (take (suc n) xs) ≡ take n xs
  take-take zero xs = refl
  take-take (suc n) [] = refl
  take-take (suc n) (x ∷ xs) = rw (take-take n xs)

  take-short :
      (n : ℕ) (xs : List A) → ltb n (length (take (suc n) xs)) ≡ false → take (suc n) xs ≡ take n xs
  take-short zero [] short = refl
  take-short zero (x ∷ xs) short = absurd (ground arith)
  take-short (suc n) [] short = refl
  take-short (suc n) (x ∷ xs) short = rw (take-short n xs (ground arith))

  more : (n : ℕ) (xs : List A) → ltb n (length (take (n + 1) xs)) ≡ ltb n (length xs)
  more n xs = ground (arith, length-take (n + 1) xs)

  -- The rows kept of one row more than the page.
  kept :
      (n : ℕ) (xs : List A)
      → (if ltb n (length (take (n + 1) xs)) then take n (take (n + 1) xs) else take (n + 1) xs)
        ≡ take n xs
  kept n xs = rw (one_more n) (elim (Bool-cases (ltb n (length (take (suc n) xs)))) [
    | inl longer ↦ rw longer (take-take n xs)
    | inr short ↦ rw short (take-short n xs short)
  ])

  fetched-slice :
      (limit : ℤ) (xs : List A)
      → (if ltb_ℤ limit (pos (length (fetched limit xs)))
          then slice limit (fetched limit xs)
          else fetched limit xs)
        ≡ slice limit xs
  fetched-slice (pos n) xs = rw (ltb-pos n (length (take (n + 1) xs))) (kept n xs)
  fetched-slice (negsuc n) xs = rw (negative-ltb n (length xs)) refl

  fetched-more :
      (limit : ℤ) (xs : List A)
      → ltb_ℤ limit (pos (length (fetched limit xs))) ≡ ltb_ℤ limit (pos (length xs))
  fetched-more (pos n) xs =
      rw (ltb-pos n (length (take (n + 1) xs)), ltb-pos n (length xs)) (more n xs)
  fetched-more (negsuc n) xs = refl

-- How many of the rows a page has: 1 to 100 and at most the limit, or all rows but the last.
abbrev pub HasSize : ℤ → ℕ → ℕ → Type 0
HasSize (pos n) total size = (1 ≤ n) × (n ≤ max_page_size) × (size ≤ n)
HasSize (negsuc n) total size = size ≡ total - 1

module _ {A : Type 0} where
  slice-HasSize :
      (l : Option ℤ) (xs : List A)
      → is_refused (limit_of l) ≡ false
      → HasSize (limit_of l) (length xs) (length (slice (limit_of l) xs))
  slice-HasSize none xs served =
      (omega arith, omega arith, omega (arith, length-take default_page_size xs))
  slice-HasSize (some (pos n)) xs served =
      let limit = if ltb 0 n then min n max_page_size else default_page_size in
      (ground arith, ground arith, omega (arith, length-take limit xs))
  slice-HasSize (some (negsuc zero)) xs served = omega (arith, length-take (length xs - 1) xs)
  slice-HasSize (some (negsuc (suc n))) xs served = absurd (ground arith)

module _ {A : Type 0} (created_at : A → ℕ) where
  pub filter_page-items :
      (cursor : Option CursorParams) (rows : List A)
      → (filter_page created_at cursor rows).items
        ≡ slice
            (limit_of (cursor_limit cursor))
            (keep (λ a. is_after_cursor cursor (created_at a)) rows)
  unfolding filter_page page_of
  filter_page-items cursor rows =
      fetched-slice (limit_of (cursor_limit cursor))
        (keep (λ a. is_after_cursor cursor (created_at a)) rows)

  -- A page that the database does not refuse holds the first rows after the cursor, at most the limit of them,
  -- which is then 1 to 100, unless the client asks for the limit -1: that page holds all rows after the
  -- cursor but the last, however many they are. It says that there are more exactly if there are more
  -- rows than the limit, and its cursor is then the time of its last row, if it has any.
  pub filter_page_lem :
      (cursor : Option CursorParams) (rows : List A)
      → is_refused (limit_of (cursor_limit cursor)) ≡ false
      → let limit = limit_of (cursor_limit cursor) in
        let wanted = keep (λ a. is_after_cursor cursor (created_at a)) rows in
        let page = filter_page created_at cursor rows in
        HasSize limit (length wanted) (length page.items)
        × (page.items ≡ slice limit wanted)
        × (page.has_more ≡ ltb_ℤ limit (pos (length wanted)))
        × (page.next_cursor
            ≡ (if page.has_more then time_of created_at (last created_at page.items) else none))
  unfolding filter_page page_of
  filter_page_lem cursor rows served =
      let l = cursor_limit cursor in
      let wanted = keep (λ a. is_after_cursor cursor (created_at a)) rows in
      (
        rw (fetched-slice (limit_of l) wanted) (slice-HasSize l wanted served),
        fetched-slice (limit_of l) wanted,
        fetched-more (limit_of l) wanted,
        refl,
      )
