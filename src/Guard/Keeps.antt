-- ===== src/Guard/Keeps.antt =====
-- Isolated work that keeps an invariant of the database, as it sees it from within its transaction.
-- One rule for each way to build an operation, as in `Isolated` and `Leaves`.
use dispatch_api.Prelude.{◌≡◌, sym, subst, Bool, true, false, Option, none, some, is_some}
use dispatch_api.Entities.{Db}
use dispatch_api.World.{
  World, Error, LockKey, Result, ok, err, M, view, view-write, pure, raise, gets, query, or_raise,
  raise_if, write, fresh, continue, ◌>>=◌,
}
use dispatch_api.Guard.{lock_and_transaction}
use dispatch_api.Guard.Isolated.{
  Isolated, Stays, Stays-refl, Stays-trans, Isolated-pure, Isolated-raise, Isolated-gets,
  Isolated-query, Isolated-or_raise, Isolated-raise_if, Isolated-fresh, Isolated-write,
}
use dispatch_api.Guard.Relates.{guarded-relates}

module _ (P : Db → Type 0) where
  pub record Keeps {A : Type 0} (m : M A) : Type 0 where
    pub isolated : Isolated m
    pub at : (w : World) → is_some w.tx ≡ true → P (view w) → P (view (m w).1)

  module _ {A : Type 0} where
    pub Keeps-pure : (a : A) → Keeps (pure a)
    Keeps-pure a = record { isolated = Isolated-pure a; at = λ w o h. h }

    pub Keeps-raise : (e : Error) → Keeps (raise {A = A} e)
    Keeps-raise e = record { isolated = Isolated-raise e; at = λ w o h. h }

    pub Keeps-gets : (f : World → A) → Keeps (gets f)
    Keeps-gets f = record { isolated = Isolated-gets f; at = λ w o h. h }

    pub Keeps-query : (f : Db → A) → Keeps (query f)
    Keeps-query f = record { isolated = Isolated-query f; at = λ w o h. h }

    pub Keeps-or_raise : (o : Option A) (e : Error) → Keeps (or_raise o e)
    Keeps-or_raise none e = record { isolated = Isolated-or_raise none e; at = λ w o h. h }
    Keeps-or_raise (some a) e = record { isolated = Isolated-or_raise (some a) e; at = λ w o h. h }

  pub Keeps-raise_if : (c : Bool) (e : Error) → Keeps (raise_if c e)
  Keeps-raise_if true e = record { isolated = Isolated-raise_if true e; at = λ w o h. h }
  Keeps-raise_if false e = record { isolated = Isolated-raise_if false e; at = λ w o h. h }

  pub Keeps-fresh : Keeps fresh
  Keeps-fresh = record { isolated = Isolated-fresh; at = λ w o h. h }

  pub Keeps-write : (f : Db → Db) → ((db : Db) → P db → P (f db)) → Keeps (write f)
  Keeps-write f k = record {
    isolated = Isolated-write f;
    at = λ w o h. subst P (sym (view-write f w)) (k (view w) h);
  }

  module _ {A B : Type 0} where
    after :
        (r : Result A) (w : World) (f : A → M B)
        → ((a : A) → Keeps (f a))
        → is_some w.tx ≡ true
        → P (view w)
        → P (view (continue f r w).1)
    after (ok a) w f kf o h = (kf a).at w o h
    after (err e) w f kf o h = h

    rest :
        (r : Result A) (w : World) (f : A → M B)
        → ((a : A) → Keeps (f a))
        → is_some w.tx ≡ true
        → Stays w (continue f r w).1
    rest (ok a) w f kf o = (kf a).isolated.at w o
    rest (err e) w f kf o = Stays-refl w o

    pub Keeps-bind : (m : M A) (f : A → M B) → Keeps m → ((a : A) → Keeps (f a)) → Keeps (m >>= f)
    Keeps-bind m f km kf = record {
      isolated = record {
        at = λ w o.
            let s = km.isolated.at w o in Stays-trans s (rest (m w).0 (m w).1 f kf s.open_tx);
      };
      at =
          λ w o h. let s = km.isolated.at w o in after (m w).0 (m w).1 f kf s.open_tx (km.at w o h);
    }

  -- What is kept by isolated work is kept by the guarded operation.
  pub guarded-keeps :
      {A : Type 0} (key : LockKey) (work : M A) (w : World)
      → Keeps work
      → P w.committed
      → P (lock_and_transaction key work w).1.committed
  guarded-keeps key work w k =
      guarded-relates (λ a b. P a → P b) (λ db h. h) key work w k.isolated (λ v o h. k.at v o h)

pub ruleset keeps_rules = (
  Keeps-pure, Keeps-raise, Keeps-gets, Keeps-query, Keeps-or_raise, Keeps-raise_if, Keeps-fresh,
  Keeps-bind,
)
