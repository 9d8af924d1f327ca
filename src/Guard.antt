-- ===== src/Guard.antt =====
-- src/shared/modules/db-guard/db-guard.service.ts: locks and transactions around an operation.
pub mod Isolated
pub mod Atomic
pub mod Tables
pub mod Keeps
pub mod Relates
use dispatch_api.Prelude.{Bool, true, false, Option, some, List, [], ◌∷◌, ◌||◌}
use dispatch_api.Entities.{Db}
use dispatch_api.World.{World, LockKey, lock_eq, lock_unavailable, Result, ok, err, M, view}

abbrev pub is_held : LockKey → List LockKey → Bool
is_held k [] = false
is_held k (h ∷ hs) = lock_eq k h || is_held k hs

-- `redlock.release`: the latest hold of the key goes.
abbrev pub release : LockKey → List LockKey → List LockKey
release k [] = []
release k (h ∷ hs) = let rest = release k hs in elim (lock_eq k h) [ true ↦ hs | false ↦ h ∷ rest ]

-- The state that the work of a transaction begins in.
abbrev pub opened : World → World
opened w = record w { tx = some (λ db. db) }

-- Commits the writes of a transaction that has returned, and drops those of one that has thrown.
-- The outer transaction, if any, goes on with the writes that it had.
abbrev pub settle : {A : Type 0} → Option (Db → Db) → Result A × World → Result A × World
settle outer (ok a, w) = (ok a, record w { committed = view w; tx = outer })
settle outer (err e, w) = (err e, record w { tx = outer })

-- `dataSource.transaction` always opens a transaction of its own, also within another: the work
-- sees what is committed and its own writes.
unfoldable pub transaction : {A : Type 0} → M A → M A
transaction work w = settle w.tx (work (opened w))

-- The lock is taken if it is free and released after the work, in `finally`. Redlock retries for a
-- while before it throws; here the call throws at once if the key is held.
unfoldable pub lock : {A : Type 0} → LockKey → M A → M A
lock key work w = elim (is_held key w.held) [
  | true ↦ (err lock_unavailable, w)
  | false ↦
      let (r, w') = work (record w { held = key ∷ w.held }) in
      (r, record w' { held = release key w'.held })
]

unfoldable pub lock_and_transaction : {A : Type 0} → LockKey → M A → M A
unfolding lock transaction
lock_and_transaction key work = lock key (transaction work)
