-- ===== src/Orders/Conformance.antt =====
-- The guarded operations change the status of an order along the policy only.
use dispatch_api.Prelude.{
  ℕ, ◌==◌, ◌≡◌, refl, ap, ◌⊎◌, inl, inr, true, Option, none, some, map_option, upsert, find,
  find-upsert, key-find, arith, Bool-cases, Option-cases,
}
use dispatch_api.Enums.{OrderStatus, shipped, delivered}
use dispatch_api.Entities.{Order, Db}
use dispatch_api.Dtos.{ShipOrder}
use dispatch_api.World.{World, Result, ok, err, M, view, ◌>>=◌, ◌>>◌}
use dispatch_api.Guard.{lock_and_transaction}
use dispatch_api.Guard.Isolated.{Isolated}
use dispatch_api.Guard.Relates.{guarded-relates}
use dispatch_api.Guard.Tables.{Leaves, leaves_rules}
use dispatch_api.Orders.Policy.{can_transition}
use dispatch_api.Orders.Store.{LoadedOrder, order_row, order_by_id, load, get_order_or_throw}
use dispatch_api.Orders.Service.{
  ship_work, deliver_work, cancel_work, refund_work, require_transition, or_keep, ship, deliver,
  cancel, refund, update_lock,
}
use dispatch_api.Orders.Requests.{OrderRequest as Q, handle, report, target}
use dispatch_api.Orders.Atomicity.{
  ship_work-Isolated, deliver_work-Isolated, cancel_work-Isolated, refund_work-Isolated,
}
use dispatch_api.Orders.Steps.{
  orders_of, add-Leaves, get_order_or_throw-Leaves, require_transition-Leaves, get_then_none,
  get_then_some, require_then_false, require_then_true, save_then, user_id_of-Leaves,
  dispatch_notification-Leaves,
}

abbrev pub status_of : ℕ → Db → Option OrderStatus
status_of id db = map_option (λ (o : Order). o.status) (order_row id db)

-- How the status of one order may change.
abbrev pub IsAllowed : Option OrderStatus → Option OrderStatus → Type 0
IsAllowed none none = Unit
IsAllowed (some s) (some t) = (s ≡ t) ⊎ (can_transition s t ≡ true)
IsAllowed none (some _) = ⊥
IsAllowed (some _) none = ⊥

pub IsAllowed-refl : (s : Option OrderStatus) → IsAllowed s s
IsAllowed-refl none = tt
IsAllowed-refl (some s) = inl refl

-- An operation that writes the loaded order back with the status that it was asked for.
record Puts (t : OrderStatus) (o : Order) (before after : Db) : Type 0 where
  new : Order
  same_id : new.id ≡ o.id
  status : new.status ≡ t
  put : after.orders ≡ upsert (λ x. x.id == new.id) new before.orders

Puts-IsAllowed :
    (t : OrderStatus) (o : Order) (before after : Db) (id j : ℕ)
    → order_by_id id before ≡ some o
    → can_transition o.status t ≡ true
    → Puts t o before after
    → IsAllowed (status_of j before) (status_of j after)
Puts-IsAllowed t o before after id j e c p = rw p.put (
    ground (
      arith,
      find-upsert (λ (x : Order). x.id) p.new before.orders j,
      key-find (λ (x : Order). x.id) before.orders id {r = o},
    ))

-- The operations that ask the policy for the status `t`, and then go on with `body`.
module _ {A : Type 0} (id : ℕ) (t : OrderStatus) (body : LoadedOrder → M A) where
  abbrev guarded_work : M A
  guarded_work = get_order_or_throw id >>= λ l. require_transition l.order.status t >> body l

  guarded_work-IsAllowed :
      ((o : Order) (w : World) → Puts t o (view w) (view (body (load (view w) o) w).1))
      → (j : ℕ) (w : World)
      → IsAllowed (status_of j (view w)) (status_of j (view (guarded_work w).1))
  guarded_work-IsAllowed puts j w = elim (Option-cases (order_by_id id (view w))) [
    | inl missing ↦ rw (get_then_none id _ w missing) (IsAllowed-refl _)
    | inr (o, found) ↦
        rw (get_then_some id o _ w found) (elim (Bool-cases (can_transition o.status t)) [
          | inl allowed ↦
              rw (require_then_true o.status t (body (load (view w) o)) w allowed)
                (Puts-IsAllowed t o (view w) _ id j found allowed (puts o w))
          | inr refused ↦
              rw (require_then_false o.status t (body (load (view w) o)) w refused)
                (IsAllowed-refl _)
        ])
  ]

ruleset tail_rules = (
  leaves_rules, get_order_or_throw-Leaves, require_transition-Leaves, user_id_of-Leaves,
  dispatch_notification-Leaves, add-Leaves,
)

ship_work-IsAllowed :
    (id : ℕ) (dto : ShipOrder) (j : ℕ) (w : World)
    → IsAllowed (status_of j (view w)) (status_of j (view (ship_work id dto w).1))
unfolding ship_work
ship_work-IsAllowed id dto = guarded_work-IsAllowed id shipped _ λ o w. record {
  new = record o {
    status = shipped;
    shipped_at = some w.now;
    tracking_number = or_keep dto.tracking_number o.tracking_number;
    carrier = or_keep dto.carrier o.carrier;
  };
  same_id = refl;
  status = refl;
  put = save_then _ _ w (search tail_rules depth 9);
}

deliver_work-IsAllowed :
    (id : ℕ) (j : ℕ) (w : World)
    → IsAllowed (status_of j (view w)) (status_of j (view (deliver_work id w).1))
unfolding deliver_work
deliver_work-IsAllowed id = guarded_work-IsAllowed id delivered _ λ o w. record {
  new = record o { status = delivered; delivered_at = some w.now };
  same_id = refl;
  status = refl;
  put = save_then _ _ w (search tail_rules depth 9);
}

-- Work that only enqueues a job leaves every status as it is.
same_status :
    {A : Type 0} (m : M A) (j : ℕ) (w : World)
    → Leaves orders_of m
    → IsAllowed (status_of j (view w)) (status_of j (view (m w).1))
same_status m j w h =
    rw (ap (λ os. map_option (λ (o : Order). o.status) (find (λ o. o.id == j) os)) (h.at w))
      (IsAllowed-refl _)

cancel_work-Leaves : (id : ℕ) → Leaves orders_of (cancel_work id)
unfolding cancel_work
cancel_work-Leaves id = search tail_rules depth 9

refund_work-Leaves : (id : ℕ) → Leaves orders_of (refund_work id)
unfolding refund_work
refund_work-Leaves id = search tail_rules depth 9

-- The relation between the database before and after, for the order `j`.
abbrev Conforms : ℕ → Db → Db → Type 0
Conforms j before after = IsAllowed (status_of j before) (status_of j after)

reported :
    {A : Type 0} (j : ℕ) (w : World) (r : Result A) (w' : World)
    → Conforms j w.committed w'.committed
    → Conforms j w.committed (report (r, w')).1.committed
reported j w (ok a) w' h = h
reported j w (err e) w' h = h

guarded :
    {A : Type 0} (j id : ℕ) (work : M A) (w : World)
    → Isolated work
    → ((v : World) → Conforms j (view v) (view (work v).1))
    → Conforms j w.committed (report (lock_and_transaction (update_lock id) work w)).1.committed
guarded j id work w k h =
    let (r, w') = lock_and_transaction (update_lock id) work w in
    reported j w r w' (
      guarded-relates (Conforms j) (λ db. IsAllowed-refl (status_of j db)) (update_lock id) work w k
        (λ v o. h v))

-- Shipping, delivering, cancelling and refunding, on every branch and error included, change the
-- status of no order but along an edge of the policy.
pub handle_conforms :
    (q : Q) (t : OrderStatus)
    → target q ≡ some t
    → (w : World) (j : ℕ)
    → IsAllowed (status_of j w.committed) (status_of j (handle q w).1.committed)
unfolding handle ship deliver cancel refund
handle_conforms (Q.ship id dto) t e w j =
    guarded j id _ w (ship_work-Isolated id dto) (ship_work-IsAllowed id dto j)
handle_conforms (Q.deliver id) t e w j =
    guarded j id _ w (deliver_work-Isolated id) (deliver_work-IsAllowed id j)
handle_conforms (Q.cancel id) t e w j =
    guarded j id _ w (cancel_work-Isolated id)
      (λ v. same_status (cancel_work id) j v (cancel_work-Leaves id))
handle_conforms (Q.refund id) t e w j =
    guarded j id _ w (refund_work-Isolated id)
      (λ v. same_status (refund_work id) j v (refund_work-Leaves id))
handle_conforms (Q.update id s) t e w j = absurd (ground arith)
handle_conforms (Q.remove id) t e w j = absurd (ground arith)
handle_conforms (Q.payment_succeeded id) t e w j = absurd (ground arith)
handle_conforms (Q.payment_failed id) t e w j = absurd (ground arith)
