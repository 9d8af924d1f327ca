-- ===== src/Guard/Atomic.antt =====
-- What a transaction and a lock promise of isolated work: all or nothing, and the lock is free again.
use dispatch_api.Prelude.{◌≡◌, refl, inl, inr, Bool-cases, ◌∷◌, ◌∙◌, ap, arith}
use dispatch_api.World.{World, LockKey, lock_eq_refl, Error, Result, ok, err, M}
use dispatch_api.Guard.{transaction, lock, is_held, release, lock_and_transaction, opened, settle}
use dispatch_api.Guard.Isolated.{Isolated, Stays}

-- What the caller of a guarded operation gets: the outer transaction and the locks are as before,
-- and if the operation has thrown, nothing is committed.
pub record IsAtomic {A : Type 0} (w : World) (r : Result A) (w' : World) : Type 0 where
  pub same_tx : w'.tx ≡ w.tx
  pub same_held : w'.held ≡ w.held
  pub nothing : (e : Error) → r ≡ err e → w'.committed ≡ w.committed

settle-IsAtomic :
    {A : Type 0} (w : World) (r : Result A) (w' : World)
    → Stays (opened w) w'
    → let (r', w'') = settle w.tx (r, w') in IsAtomic w r' w''
settle-IsAtomic w (ok a) w' s = record {
  same_tx = refl;
  same_held = s.held;
  nothing = λ e h. absurd (ground arith);
}
settle-IsAtomic w (err x) w' s = record {
  same_tx = refl;
  same_held = s.held;
  nothing = λ e h. s.committed;
}

pub transaction-IsAtomic :
    {A : Type 0} (work : M A) (w : World)
    → Isolated work
    → let (r, w') = transaction work w in IsAtomic w r w'
unfolding transaction
transaction-IsAtomic work w k =
    settle-IsAtomic w (work (opened w)).0 (work (opened w)).1 (k.at (opened w) refl)

release-head : (k : LockKey) (w : World) → release k (k ∷ w.held) ≡ w.held
release-head k w = rw (lock_eq_refl k, release)

pub lock_and_transaction-IsAtomic :
    {A : Type 0} (key : LockKey) (work : M A) (w : World)
    → Isolated work
    → let (r, w') = lock_and_transaction key work w in IsAtomic w r w'
unfolding lock_and_transaction lock
lock_and_transaction-IsAtomic key work w k = elim (Bool-cases (is_held key w.held)) [
  | inl busy ↦ rw (busy, lock) (record { same_tx = refl; same_held = refl; nothing = λ e h. refl })
  | inr free ↦
      let t = transaction-IsAtomic work (record w { held = key ∷ w.held }) k in
      rw (free, lock)
        (record {
          same_tx = t.same_tx;
          same_held = ap (release key) t.same_held ∙ release-head key w;
          nothing = t.nothing;
        })
]
