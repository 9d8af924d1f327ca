-- ===== src/Pagination/Next.antt =====
-- Going from page to page with the cursor (the `filter` of the repositories and cursor-params.pipe.ts).
use native.Mathlib.Nat.{div-mul-le_self}
use dispatch_api.Prelude.Int.{ℤ, pos, negsuc, ltb_ℤ}
use dispatch_api.Prelude.{
  ◌≤◌, ap, ap₂, ℕ, zero, suc, ◌+◌, ◌≡◌, refl, sym, ◌∙◌, Bool, true, ◌&&◌, Option, none, some, List,
  [], ◌∷◌, ◌++◌, ltb, length, take, drop, truthy, keep, arith,
}
use dispatch_api.Dtos.{CursorParams}
use dispatch_api.World.{World, ok}
use dispatch_api.Pagination.{
  last, time_of, is_after_cursor, cursor_limit, limit_of, default_page_size, filter_page, slice,
  is_refused,
}
use dispatch_api.Pagination.Pages.{filter_page_lem, filter_page-items, ltb-pos}
use dispatch_api.Pagination.Cursor.{cursor_pipe, next_cursor_text, to_millis}

-- What the text of a time says.
abbrev pub start_at : ℕ → CursorParams
start_at t = record { starting_after = some t; limit = none }

to_millis_le : (t : ℕ) → to_millis t ≤ t
to_millis_le t = div-mul-le_self t 1000

limit_positive : (l : Option ℤ) (n : ℕ) → limit_of l ≡ pos n → ltb 0 n ≡ true
limit_positive none n e = ground arith
limit_positive (some (pos m)) n e = ground arith
limit_positive (some (negsuc m)) n e = absurd (ground arith)

module _ {A : Type 0} (created_at : A → ℕ) where
  abbrev pub all_times : (ℕ → Bool) → List A → Bool
  all_times p [] = true
  all_times p (x ∷ xs) = p (created_at x) && all_times p xs

  abbrev pub all_older : ℕ → List A → Bool
  all_older t = all_times (λ s. ltb s t)

  -- Newest first, and no two rows of one millisecond.
  abbrev pub is_descending : List A → Bool
  is_descending [] = true
  is_descending (x ∷ xs) = all_older (to_millis (created_at x)) xs && is_descending xs

  abbrev older_than : ℕ → List A → List A
  older_than t = keep (λ a. ltb (created_at a) t)

  keep-all_older : (t : ℕ) (xs : List A) → all_older t xs ≡ true → older_than t xs ≡ xs
  keep-all_older t [] h = refl
  keep-all_older t (x ∷ xs) h = ground (arith, keep-all_older t xs)

  last-passes :
      (p : ℕ → Bool) (n t : ℕ) (xs : List A)
      → all_times p xs ≡ true
      → time_of created_at (last created_at (take n xs)) ≡ some t
      → p t ≡ true
  unfolding last
  last-passes p zero t xs all at_end = absurd (ground arith)
  last-passes p (suc n) t [] all at_end = absurd (ground arith)
  last-passes p (suc zero) t (x ∷ xs) all at_end = ground arith
  last-passes p (suc (suc n)) t (x ∷ []) all at_end = ground arith
  last-passes p (suc (suc n)) t (x ∷ y ∷ xs) all at_end =
      last-passes p (suc n) t (y ∷ xs) (ground arith) at_end

  -- What is older than the last row of a page is what the page has left.
  older-drop :
      (n t : ℕ) (xs : List A)
      → is_descending xs ≡ true
      → time_of created_at (last created_at (take n xs)) ≡ some t
      → older_than (to_millis t) xs ≡ drop n xs
  unfolding last
  older-drop zero t xs sorted at_end = absurd (ground arith)
  older-drop (suc n) t [] sorted at_end = absurd (ground arith)
  older-drop (suc zero) t (x ∷ xs) sorted at_end =
      ground (arith, to_millis_le (created_at x), keep-all_older (to_millis (created_at x)) xs)
  older-drop (suc (suc n)) t (x ∷ []) sorted at_end = ground arith
  older-drop (suc (suc n)) t (x ∷ y ∷ xs) sorted at_end = ground (
    arith,
    to_millis_le t,
    to_millis_le (created_at x),
    last-passes (λ s. ltb s (to_millis (created_at x))) (suc n) t (y ∷ xs) (ground arith) at_end,
    older-drop (suc n) t (y ∷ xs) (ground arith) at_end,
  )

  all_older-keep :
      (p : A → Bool) (t : ℕ) (xs : List A) → all_older t xs ≡ true → all_older t (keep p xs) ≡ true
  all_older-keep p t [] h = refl
  all_older-keep p t (x ∷ xs) h = ground (arith, all_older-keep p t xs)

  descending-keep :
      (p : A → Bool) (xs : List A) → is_descending xs ≡ true → is_descending (keep p xs) ≡ true
  descending-keep p [] h = refl
  descending-keep p (x ∷ xs) h =
      ground (arith, descending-keep p xs, all_older-keep p (to_millis (created_at x)) xs)

  -- What is after a cursor.
  module _ (cursor : Option CursorParams) where
    abbrev after : List A → List A
    after = keep (λ a. is_after_cursor cursor (created_at a))

    before_too :
        (s t : ℕ)
        → is_after_cursor cursor t ≡ true
        → ltb s t ≡ true
        → is_after_cursor cursor s ≡ true
    before_too s t h older = ground arith

    millis_pass :
        (t : ℕ) → is_after_cursor cursor t ≡ true → is_after_cursor cursor (to_millis t) ≡ true
    millis_pass t h = ground (arith, to_millis_le t)

    all_after : (xs : List A) → all_times (is_after_cursor cursor) (after xs) ≡ true
    all_after [] = refl
    all_after (x ∷ xs) = ground (arith, all_after xs)

    older-after :
        (t : ℕ) (xs : List A)
        → is_after_cursor cursor t ≡ true
        → older_than t (after xs) ≡ older_than t xs
    older-after t [] h = refl
    older-after t (x ∷ xs) h = ground (arith, older-after t xs h, before_too (created_at x) t h)

  last-some :
      (x : A) (xs : List A) → (t : ℕ) × (time_of created_at (last created_at (x ∷ xs)) ≡ some t)
  unfolding last
  last-some x [] = (created_at x, refl)
  last-some x (y ∷ xs) = last-some y xs

  end_of_page :
      (n : ℕ) (xs : List A)
      → ltb 0 n ≡ true
      → ltb n (length xs) ≡ true
      → (t : ℕ) × (time_of created_at (last created_at (take n xs)) ≡ some t)
  end_of_page zero xs some_rows longer = absurd (ground arith)
  end_of_page (suc n) [] some_rows longer = absurd (ground arith)
  end_of_page (suc n) (x ∷ xs) some_rows longer = last-some x (take n xs)

  take_none : (n : ℕ) → take {A = A} n [] ≡ []
  take_none zero = refl
  take_none (suc n) = refl

  take-drop : (n m : ℕ) (xs : List A) → take n xs ++ take m (drop n xs) ≡ take (n + m) xs
  take-drop zero m xs = let e : m ≡ 0 + m = omega arith in ap (λ k. take k xs) e
  take-drop (suc n) m [] = take_none m ∙ sym (take_none (suc n + m))
  take-drop (suc n) m (x ∷ xs) =
      let e : suc (n + m) ≡ suc n + m = omega arith in
      ap (λ ys. x ∷ ys) (take-drop n m xs) ∙ ap (λ k. take k (x ∷ xs)) e

  -- The rows of the page that begins at the last row of a page.
  rest_of_page :
      (cursor : Option CursorParams) (n t : ℕ) (rows : List A)
      → is_descending rows ≡ true
      → time_of created_at (last created_at (take n (after cursor rows))) ≡ some t
      → older_than (to_millis t) rows ≡ drop n (after cursor rows)
  rest_of_page cursor n t rows sorted at_end =
      let wanted = after cursor rows in
      let passes = last-passes (is_after_cursor cursor) n t wanted (all_after cursor rows) at_end in
      sym (older-after cursor (to_millis t) rows (millis_pass cursor t passes))
      ∙ older-drop n t wanted
          (descending-keep (λ a. is_after_cursor cursor (created_at a)) rows sorted) at_end

  -- The text of a page whose last row is of a time leads to the rows before its millisecond.
  next_is_read :
      (w : World) (cursor : Option CursorParams) (rows : List A) (t : ℕ)
      → w.env.decode_cursor (w.env.encode_cursor (to_millis t)) ≡ some (start_at (to_millis t))
      → truthy (some (w.env.encode_cursor (to_millis t))) ≡ some (w.env.encode_cursor (to_millis t))
      → (filter_page created_at cursor rows).next_cursor ≡ some t
      → cursor_pipe (next_cursor_text w.env (filter_page created_at cursor rows)) w
        ≡ (ok (some (start_at (to_millis t))), w)
  unfolding cursor_pipe
  next_is_read w cursor rows t undone not_empty next = rw (next, not_empty, undone) refl

  -- Whoever sends the `nextCursor` of a page back gets the page that follows it: no row is left out
  -- and none is sent twice, over the rows of the page and the 20 of the next, whatever cursor the page had begun at,
  -- if its limit is not negative. The rows are sorted, no two of them are of one millisecond, decoding
  -- undoes the encoding of a time in milliseconds, and the texts are not empty.
  pub next_page_continues :
      (w : World) (cursor : Option CursorParams) (rows : List A) (n : ℕ)
      → ((t : ℕ)
          → w.env.decode_cursor (w.env.encode_cursor (to_millis t)) ≡ some (start_at (to_millis t)))
      → ((t : ℕ)
          → truthy (some (w.env.encode_cursor (to_millis t)))
            ≡ some (w.env.encode_cursor (to_millis t)))
      → limit_of (cursor_limit cursor) ≡ pos n
      → is_descending rows ≡ true
      → (filter_page created_at cursor rows).has_more ≡ true
      → let page = filter_page created_at cursor rows in
        (c : Option CursorParams) × (cursor_pipe (next_cursor_text w.env page) w ≡ (ok c, w))
        × (page.items ++ (filter_page created_at c rows).items
            ≡ take (n + default_page_size) (keep (λ a. is_after_cursor cursor (created_at a)) rows))
  next_page_continues w cursor rows n undoes not_empty limit sorted more =
      let wanted = after cursor rows in
      let (_, items, has_more, next) =
        filter_page_lem created_at cursor rows (ap is_refused limit) in
      let page_rows = items ∙ ap (λ l. slice l wanted) limit in
      let longer =
        sym (ltb-pos n (length wanted))
        ∙ ap (λ l. ltb_ℤ l (pos (length wanted))) (sym limit)
        ∙ sym has_more
        ∙ more in
      let (t, at_end) =
        end_of_page n wanted (limit_positive (cursor_limit cursor) n limit) longer in
      let c = start_at (to_millis t) in
      let at_cursor = next ∙ rw (more, page_rows) at_end in
      (
        some c,
        next_is_read w cursor rows t (undoes t) (not_empty t) at_cursor,
        ap₂ (λ xs ys. xs ++ ys) page_rows
              (filter_page-items created_at (some c) rows
                ∙ ap (take default_page_size) (rest_of_page cursor n t rows sorted at_end))
            ∙ take-drop n default_page_size wanted,
      )
