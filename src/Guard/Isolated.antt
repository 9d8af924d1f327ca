-- ===== src/Guard/Isolated.antt =====
-- Work that stays within the transaction it runs in: it commits nothing by itself, leaves the
-- transaction open and the locks as they were. One rule for each way to build an operation.
use dispatch_api.Prelude.{◌≡◌, refl, Bool, true, false, Option, none, some, is_some, ◌∙◌, arith}
use dispatch_api.Entities.{Db}
use dispatch_api.World.{
  World, Error, Result, ok, err, M, pure, raise, gets, query, or_raise, raise_if, write, fresh,
  continue, ◌>>=◌,
}

-- Where an operation that began at `w` may have ended.
pub record Stays (w w' : World) : Type 0 where
  pub committed : w'.committed ≡ w.committed
  pub open_tx : is_some w'.tx ≡ true
  pub held : w'.held ≡ w.held

pub record Isolated {A : Type 0} (m : M A) : Type 0 where
  pub at : (w : World) → is_some w.tx ≡ true → Stays w (m w).1

pub Stays-trans : {u v w : World} → Stays u v → Stays v w → Stays u w
Stays-trans a b = record {
  committed = b.committed ∙ a.committed;
  open_tx = b.open_tx;
  held = b.held ∙ a.held;
}

pub Stays-refl : (w : World) → is_some w.tx ≡ true → Stays w w
Stays-refl w h = record { committed = refl; open_tx = h; held = refl }

module _ {A : Type 0} where
  pub Isolated-pure : (a : A) → Isolated (pure a)
  Isolated-pure a = record { at = Stays-refl }

  pub Isolated-raise : (e : Error) → Isolated (raise {A = A} e)
  Isolated-raise e = record { at = Stays-refl }

  pub Isolated-gets : (f : World → A) → Isolated (gets f)
  Isolated-gets f = record { at = Stays-refl }

  pub Isolated-query : (f : Db → A) → Isolated (query f)
  Isolated-query f = record { at = Stays-refl }

  pub Isolated-or_raise : (o : Option A) (e : Error) → Isolated (or_raise o e)
  Isolated-or_raise none e = record { at = Stays-refl }
  Isolated-or_raise (some a) e = record { at = Stays-refl }

pub Isolated-raise_if : (c : Bool) (e : Error) → Isolated (raise_if c e)
Isolated-raise_if true e = record { at = Stays-refl }
Isolated-raise_if false e = record { at = Stays-refl }

pub Isolated-fresh : Isolated fresh
Isolated-fresh = record { at = λ w h. record { committed = refl; open_tx = h; held = refl } }

pub Isolated-write : (f : Db → Db) → Isolated (write f)
Isolated-write f = record { at = λ w h. ground arith }

module _ {A B : Type 0} where
  after :
      (r : Result A) (w : World) (f : A → M B)
      → ((a : A) → Isolated (f a))
      → is_some w.tx ≡ true
      → Stays w (continue f r w).1
  after (ok a) w f kf h = (kf a).at w h
  after (err e) w f kf h = Stays-refl w h

  pub Isolated-bind :
      (m : M A) (f : A → M B) → Isolated m → ((a : A) → Isolated (f a)) → Isolated (m >>= f)
  Isolated-bind m f km kf = record {
    at = λ w h. let s = km.at w h in Stays-trans s (after (m w).0 (m w).1 f kf s.open_tx);
  }

pub ruleset isolated_rules = (
  Isolated-pure, Isolated-raise, Isolated-gets, Isolated-query, Isolated-or_raise,
  Isolated-raise_if, Isolated-fresh, Isolated-write, Isolated-bind,
)
