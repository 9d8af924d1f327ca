-- ===== src/Outbox/Counted.antt =====
-- How many rows a batch of the outbox takes (outbox-cron.processor.ts and outbox.repository.ts in src/shared/modules/outbox).
use dispatch_api.Prelude.{
  if◌then◌else◌, ℕ, suc, ◌+◌, ◌≤◌, min, ◌≡◌, refl, ap, Bool, true, not, ◌&&◌, ==_refl, List, [],
  ◌∷◌, ◌++◌, keep, take, drop, length, length-take, take-append-drop, arith,
}
use dispatch_api.Entities.{Outbox}
use dispatch_api.Enums.{OutboxType, order_ship, order_deliver}
use dispatch_api.Outbox.Dispatcher.{
  partition, is_order_type, is_payment_type, is_effects_type, is_user_type,
}
use dispatch_api.Outbox.Cron.{sort_by_time, insert_by_time, has_id}

-- How many rows pass a test, in parts of a list and after sorting.
module _ (p : Outbox → Bool) where
  abbrev passing : List Outbox → ℕ
  passing ms = length (keep p ms)

  passing-append : (ms ns : List Outbox) → passing (ms ++ ns) ≡ passing ms + passing ns
  passing-append [] ns = omega arith
  passing-append (m ∷ ms) ns = ground (arith, passing-append ms ns)

  passing-insert :
      (m : Outbox) (ns : List Outbox) → passing (insert_by_time m ns) ≡ passing (m ∷ ns)
  unfolding insert_by_time
  passing-insert m [] = refl
  passing-insert m (n ∷ ns) = ground (arith, passing-insert m ns)

  passing-sort : (ms : List Outbox) → passing (sort_by_time ms) ≡ passing ms
  unfolding sort_by_time
  passing-sort [] = refl
  passing-sort (m ∷ ms) = ground (arith, passing-insert m (sort_by_time ms), passing-sort ms)

  -- The rest.
  passing-not : (ms : List Outbox) → length (keep (λ m. not (p m)) ms) + passing ms ≡ length ms
  passing-not [] = omega arith
  passing-not (m ∷ ms) = ground (arith, passing-not ms)

length-insert : (m : Outbox) (ns : List Outbox) → length (insert_by_time m ns) ≡ suc (length ns)
unfolding insert_by_time
length-insert m [] = refl
length-insert m (n ∷ ns) = ground (arith, length-insert m ns)

length-sort : (ms : List Outbox) → length (sort_by_time ms) ≡ length ms
unfolding sort_by_time
length-sort [] = refl
length-sort (m ∷ ms) = omega (arith, length-insert m (sort_by_time ms), length-sort ms)

abbrev all_in : List Outbox → List Outbox → Bool
all_in ns [] = true
all_in ns (m ∷ ms) = has_id ns m.id && all_in ns ms

all_in-cons : (n : Outbox) (ns ms : List Outbox) → all_in ns ms ≡ true → all_in (n ∷ ns) ms ≡ true
all_in-cons n ns [] h = refl
all_in-cons n ns (m ∷ ms) h = ground (arith, all_in-cons n ns ms)

all_in_self : (ms : List Outbox) → all_in ms ms ≡ true
all_in_self [] = refl
all_in_self (m ∷ ms) = ground (arith, ==_refl m.id, all_in-cons m ms ms (all_in_self ms))

passing_all :
    (ns ms : List Outbox) → all_in ns ms ≡ true → passing (λ m. has_id ns m.id) ms ≡ length ms
passing_all ns [] h = refl
passing_all ns (m ∷ ms) h = ground (arith, passing_all ns ms)

abbrev pub after_batch : List Outbox → List Outbox → List Outbox
after_batch ms rows = keep (λ m. not (has_id ms m.id)) rows

-- A batch takes its own length at least from the table.
pub batch_shrinks :
    (n : ℕ) (rows : List Outbox)
    → let ms = take n (sort_by_time rows) in
      length (after_batch ms rows) + min n (length rows) ≤ length rows
batch_shrinks n rows =
    let s = sort_by_time rows in
    let ms = take n s in
    let p : Outbox → Bool = λ m. has_id ms m.id in
    let parts = passing-append p ms (drop n s) in
    let whole = ap (passing p) (take-append-drop n s) in
    omega (
      arith,
      passing-not p rows,
      passing-sort p rows,
      whole,
      parts,
      passing_all ms ms (all_in_self ms),
      length-take n s,
      length-sort rows,
    )

-- The parts of a batch are together no longer than it.
in_some_part :
    (t : OutboxType)
    → (if is_order_type t then 1 else 0)
        + (if is_payment_type t then 1 else 0)
        + (if is_effects_type t then 1 else 0)
        + (if is_user_type t then 1 else 0)
      ≤ 1
in_some_part order_ship = omega arith
in_some_part order_deliver = omega arith
in_some_part _ = omega arith

pub length-partition :
    (ms : List Outbox)
    → let plan = partition ms in
      length plan.order_queue_msg
        + length plan.payment_queue_msg
        + length plan.effect_queue_msg
        + length plan.user_queue_msg
      ≤ length ms
unfolding partition
length-partition [] = omega arith
length-partition (m ∷ ms) = ground (arith, in_some_part m.type, length-partition ms)

pub batch_at_most : (n : ℕ) (rows : List Outbox) → length (take n (sort_by_time rows)) ≤ n
batch_at_most n rows = omega (arith, length-take n (sort_by_time rows))
