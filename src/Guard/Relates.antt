-- ===== src/Guard/Relates.antt =====
-- A relation between the database before and after isolated work is one between what was committed
-- before and after the guarded operation.
use dispatch_api.Prelude.{◌≡◌, true, is_some, inl, inr, Bool-cases, ◌∷◌}
use dispatch_api.Entities.{Db}
use dispatch_api.World.{World, LockKey, Result, ok, err, M, view}
use dispatch_api.Guard.{transaction, lock, is_held, lock_and_transaction, opened, settle}
use dispatch_api.Guard.Isolated.{Isolated, Stays}
use mathlib.Core.Path.{refl, subst, sym}

module _ (R : Db → Db → Type 0) (R-refl : (db : Db) → R db db) where
  settle-relates :
      {A : Type 0} (w : World) (r : Result A) (w' : World)
      → Stays (opened w) w'
      → R w.committed (view w')
      → R w.committed (settle w.tx (r, w')).1.committed
  settle-relates w (ok a) w' s h = h
  settle-relates w (err e) w' s h = subst (R w.committed) (sym s.committed) (R-refl w.committed)

  pub transaction-relates :
      {A : Type 0} (work : M A) (w : World)
      → Isolated work
      → R w.committed (view (work (opened w)).1)
      → R w.committed (transaction work w).1.committed
  unfolding transaction
  transaction-relates work w k h =
      settle-relates w (work (opened w)).0 (work (opened w)).1 (k.at (opened w) refl) h

  pub guarded-relates :
      {A : Type 0} (key : LockKey) (work : M A) (w : World)
      → Isolated work
      → ((v : World) → is_some v.tx ≡ true → R (view v) (view (work v).1))
      → R w.committed (lock_and_transaction key work w).1.committed
  unfolding lock_and_transaction lock
  guarded-relates key work w k h = elim (Bool-cases (is_held key w.held)) [
    | inl busy ↦ rw (busy, lock) (R-refl w.committed)
    | inr free ↦
        let v = record w { held = key ∷ w.held } in
        rw (free, lock) (transaction-relates work v k (h (opened v) refl))
  ]
