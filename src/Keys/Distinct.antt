-- ===== src/Keys/Distinct.antt =====
-- The texts of two keys are equal only if the keys are, so that nothing is locked or cached under the
-- key of something else.
use text.Mathlib.Text.{◌==◌ as text_eq}
use text.Mathlib.TextEquality.{eq_iff}
use dispatch_api.Prelude.{
  ℕ, ◌≡◌, refl, sym, ap, ◌∙◌, true, ◌&&◌, ◌==◌, ==_iff, some, List, String, arith, Bool-cases,
  same_truth, inl, inr,
}
use dispatch_api.World.{
  lock_code, space_code, lock_eq, cache_eq, LockKey, CacheSpace, CacheKey, job_execute,
  order_create_once, order_job_once, payment_job_once, user_job_once, effect_job_once,
  item_create_once, item_find_all, item_find_one, blacklist, user_create_once,
  user_admin_create_once,
}
use dispatch_api.Keys.{
  path_text, lock_path, lock_text, cache_path, cache_text, item_find_all_pattern, glob, some_suffix,
}
use dispatch_api.Keys.Reading.{
  number_in, after_path, after_path-path_text, nth, all_locks, all_spaces, lock_at, space_at,
  lock_number, space_number,
}

text_eq-path_text :
    (ps : List String) (x y : String) → text_eq (path_text ps x) (path_text ps y) ≡ text_eq x y
text_eq-path_text ps x y =
    same_truth (text_eq (path_text ps x) (path_text ps y)) (text_eq x y)
      (λ h.
        let e = ap (after_path ps) ((eq_iff (path_text ps x) (path_text ps y)).0 h) in
        (eq_iff x y).1 (cc (e, after_path-path_text ps x, after_path-path_text ps y)))
      (λ h. (eq_iff (path_text ps x) (path_text ps y)).1 (ap (path_text ps) ((eq_iff x y).0 h)))

module _ {S : Type 0} (code_of : S → ℕ) (path : S → List String) (kinds : List S) (d : S)
    (at : (s : S) → nth kinds (code_of s) d ≡ s)
    (number : (s : S) (id : String)
      → number_in code_of path kinds (path_text (path s) id) ≡ some (code_of s))
    (text_of : ℕ → String) (apart : (i j : ℕ) → text_eq (text_of i) (text_of j) ≡ (i == j)) where
  texts_iff :
      (s t : S) (i j : ℕ)
      → text_eq (path_text (path s) (text_of i)) (path_text (path t) (text_of j))
        ≡ ((code_of s == code_of t) && (i == j))
  texts_iff s t i j =
      let x = path_text (path s) (text_of i) in
      let y = path_text (path t) (text_of j) in
      elim (Bool-cases (code_of s == code_of t)) [
        | inl same ↦
            let e : s ≡ t =
              sym (at s)
              ∙ ap (λ n. nth kinds n d) ((==_iff (code_of s) (code_of t)).0 same)
              ∙ at t in
            rw same (
              ap (λ z. text_eq (path_text (path z) (text_of i)) y) e
              ∙ text_eq-path_text (path t) (text_of i) (text_of j)
              ∙ apart i j)
        | inr other ↦ elim (Bool-cases (text_eq x y)) [
          | inl equal ↦
              let e = ap (number_in code_of path kinds) ((eq_iff x y).0 equal) in
              absurd (ground (arith, e, number s (text_of i), number t (text_of j)))
          | inr unequal ↦ rw (other, unequal) refl
        ]
      ]

-- A star at the end takes any rest.
to_the_end : (s : String) → some_suffix (glob String.[]) s ≡ true
unfolding glob
to_the_end String.[] = refl
to_the_end (String.◌∷◌ c s) = to_the_end s

ends_in_star : (s : String) → glob "*" s ≡ true
unfolding glob
ends_in_star String.[] = refl
ends_in_star (String.◌∷◌ c s) = to_the_end (String.◌∷◌ c s)

glob_lem :
    (s : CacheSpace) (id : String)
    → glob item_find_all_pattern (path_text (cache_path s) id)
      ≡ (space_code item_find_all == space_code s)
unfolding glob
glob_lem item_find_all id = ends_in_star id
glob_lem order_create_once id = refl
glob_lem order_job_once id = refl
glob_lem payment_job_once id = refl
glob_lem user_job_once id = refl
glob_lem effect_job_once id = refl
glob_lem item_create_once id = refl
glob_lem item_find_one id = refl
glob_lem blacklist id = refl
glob_lem user_create_once id = refl
glob_lem user_admin_create_once id = refl

module _ (text_of : ℕ → String)
    (apart : (i j : ℕ) → text_eq (text_of i) (text_of j) ≡ (i == j)) where
  -- If the texts of ids differ where the ids do, two locks have one text exactly if they are the same lock.
  pub lock_texts_iff :
      (k l : LockKey) → text_eq (lock_text text_of k) (lock_text text_of l) ≡ lock_eq k l
  lock_texts_iff k l =
      texts_iff lock_code lock_path all_locks job_execute lock_at lock_number text_of apart k.space
        l.space k.id l.id

  cache_texts_iff :
      (k l : CacheKey) → text_eq (cache_text text_of k) (cache_text text_of l) ≡ cache_eq k l
  cache_texts_iff k l =
      texts_iff space_code cache_path all_spaces blacklist space_at space_number text_of apart
        k.space l.space k.id l.id

  -- The same holds of the keys of the cache; and the pattern of the listings of items matches the keys
  -- of these listings, whatever the query, and no other key.
  pub cache_texts_lem :
      (k l : CacheKey)
      → (text_eq (cache_text text_of k) (cache_text text_of l) ≡ cache_eq k l)
        × (glob item_find_all_pattern (cache_text text_of k)
            ≡ (space_code item_find_all == space_code k.space))
  cache_texts_lem k l = (cache_texts_iff k l, glob_lem k.space (text_of k.id))
