-- ===== src/World/Monad.antt =====
-- Operations: functions on the state that return or throw. What happened before a throw has
-- happened, so the state comes back with the error too.
use dispatch_api.Prelude.{
  ◌≡◌, ◌⊎◌, inl, inr, refl, arith, ℕ, ◌+◌, Bool, true, false, Option, none, some, List, [], ◌∷◌,
}
use dispatch_api.Entities.{Db}
use dispatch_api.World.State.{World, Error, view}

pub data Result (A : Type 0) : Type 0 where
  ok : A → Result A
  err : Error → Result A

abbrev pub is_ok : {A : Type 0} → Result A → Bool
is_ok (ok _) = true
is_ok (err _) = false

pub Result-cases :
    {A : Type 0} (r : Result A) → ((a : A) × (r ≡ ok a)) ⊎ ((e : Error) × (r ≡ err e))
Result-cases (ok a) = inl (a, refl)
Result-cases (err e) = inr (e, refl)

abbrev pub M : Type 0 → Type 0
M A = World → Result A × World

abbrev pub Void : Type 0
Void = Unit

module _ {A : Type 0} where
  abbrev pub pure : A → M A
  pure a w = (ok a, w)

  abbrev pub raise : Error → M A
  raise e w = (err e, w)

  abbrev pub gets : (World → A) → M A
  gets f w = (ok (f w), w)

  -- A read through the repository, in the transaction that is open.
  abbrev pub query : (Db → A) → M A
  query f w = (ok (f (view w)), w)

  abbrev pub or_raise : Option A → Error → M A
  or_raise none e w = (err e, w)
  or_raise (some a) e w = (ok a, w)

-- The rest of a `do` block runs if the first part has returned.
abbrev pub continue : {A B : Type 0} → (A → M B) → Result A → M B
continue f (ok a) w = f a w
continue f (err e) w = (err e, w)

infixl 5 ◌>>=◌ ◌>>◌
abbrev pub ◌>>=◌ : {A B : Type 0} → M A → (A → M B) → M B
◌>>=◌ m f w = let (r, w') = m w in continue f r w'

-- A block goes on where its first part has returned.
pub bind_ok :
    {A B : Type 0} (m : M A) (f : A → M B) (w : World) {a : A} {w' : World}
    → m w ≡ (ok a, w')
    → (m >>= f) w ≡ f a w'
bind_ok m f w {a} {w'} e = rw e refl

abbrev pub ◌>>◌ : {A B : Type 0} → M A → M B → M B
m >> k = m >>= λ _. k

abbrev pub modify : (World → World) → M Void
modify f w = (ok tt, f w)

abbrev pub raise_if : Bool → Error → M Void
raise_if c e w = elim c [ true ↦ (err e, w) | false ↦ (ok tt, w) ]

-- A write through the repository: it joins the open transaction, or is committed by itself.
abbrev pub write_world : (Db → Db) → World → World
write_world f w = elim w.tx [
  | none ↦ record w { committed = f w.committed }
  | some writes ↦ record w { tx = some (λ db. f (writes db)) }
]

pub view-write : (f : Db → Db) (w : World) → view (write_world f w) ≡ f (view w)
view-write f w = ground arith

abbrev pub write : (Db → Db) → M Void
write f = modify (write_world f)

-- A generated id (uuid): a number never used before.
abbrev pub fresh : M ℕ
fresh w = (ok w.next_id, record w { next_id = w.next_id + 1 })

-- `for (const x of xs) await f(x)`
abbrev pub for_each : {A : Type 0} → (A → M Void) → List A → M Void
for_each f [] = pure tt
for_each f (x ∷ xs) = f x >> for_each f xs

-- `try { … } catch { … }`
abbrev pub recover : {A : Type 0} → (Error → M A) → Result A → M A
recover handler (ok a) w = (ok a, w)
recover handler (err e) w = handler e w

abbrev pub catch : {A : Type 0} → M A → (Error → M A) → M A
catch m handler w = let (r, w') = m w in recover handler r w'
