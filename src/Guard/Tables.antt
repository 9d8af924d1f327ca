-- ===== src/Guard/Tables.antt =====
-- Work that leaves one part of the database alone, as it sees it from within its transaction. One
-- rule for each way to build an operation, as in `Isolated`.
use dispatch_api.Prelude.{◌≡◌, refl, ap, Bool, true, false, Option, none, some, ◌∙◌}
use dispatch_api.Entities.{Db}
use dispatch_api.World.{
  World, Error, Result, ok, err, M, view, view-write, pure, raise, gets, query, or_raise, raise_if,
  write, fresh, continue, ◌>>=◌,
}

module _ {T : Type 0} (part : Db → T) where
  pub record Leaves {A : Type 0} (m : M A) : Type 0 where
    pub at : (w : World) → part (view (m w).1) ≡ part (view w)

  module _ {A : Type 0} where
    pub Leaves-pure : (a : A) → Leaves (pure a)
    Leaves-pure a = record { at = λ w. refl }

    pub Leaves-raise : (e : Error) → Leaves (raise {A = A} e)
    Leaves-raise e = record { at = λ w. refl }

    pub Leaves-gets : (f : World → A) → Leaves (gets f)
    Leaves-gets f = record { at = λ w. refl }

    pub Leaves-query : (f : Db → A) → Leaves (query f)
    Leaves-query f = record { at = λ w. refl }

    pub Leaves-or_raise : (o : Option A) (e : Error) → Leaves (or_raise o e)
    Leaves-or_raise none e = record { at = λ w. refl }
    Leaves-or_raise (some a) e = record { at = λ w. refl }

  pub Leaves-raise_if : (c : Bool) (e : Error) → Leaves (raise_if c e)
  Leaves-raise_if true e = record { at = λ w. refl }
  Leaves-raise_if false e = record { at = λ w. refl }

  pub Leaves-fresh : Leaves fresh
  Leaves-fresh = record { at = λ w. refl }

  pub Leaves-write : (f : Db → Db) → ((db : Db) → part (f db) ≡ part db) → Leaves (write f)
  Leaves-write f same = record { at = λ w. ap part (view-write f w) ∙ same (view w) }

  module _ {A B : Type 0} where
    after :
        (r : Result A) (w : World) (f : A → M B)
        → ((a : A) → Leaves (f a))
        → part (view (continue f r w).1) ≡ part (view w)
    after (ok a) w f kf = (kf a).at w
    after (err e) w f kf = refl

    pub Leaves-bind :
        (m : M A) (f : A → M B) → Leaves m → ((a : A) → Leaves (f a)) → Leaves (m >>= f)
    Leaves-bind m f km kf = record { at = λ w. after (m w).0 (m w).1 f kf ∙ km.at w }

pub ruleset leaves_rules = (
  Leaves-pure, Leaves-raise, Leaves-gets, Leaves-query, Leaves-or_raise, Leaves-raise_if,
  Leaves-fresh, Leaves-bind,
)
