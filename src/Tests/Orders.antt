-- ===== src/Tests/Orders.antt =====
-- Runs of the requests and the jobs of orders.
use dispatch_api.Prelude.{◌==◌, ◌≡◌, refl, none, some, [], ◌∷◌, ◌++◌}
use dispatch_api.Prelude.Int.{pos, ◌+ℤ◌}
use dispatch_api.Enums.{
  pending, status_code, paid, processed, shipped, canceled, push, order_shipped,
}
use dispatch_api.Entities.{Order, process_order, notify_user, no_data}
use dispatch_api.Dtos.{ShipOrder}
use dispatch_api.World.{ok, err, bad_preconditions, order_not_found, lock_unavailable}
use dispatch_api.Guard.{lock, transaction, lock_and_transaction}
use dispatch_api.Outbox
use dispatch_api.Items.Levels.{stock_of}
use dispatch_api.Outbox.Waiting.{jobs_of}
use dispatch_api.Orders.Policy.{can_transition}
use dispatch_api.Orders.Store.{
  order_by_id, load, to_response, get_order_or_throw, update_status, user_id_of,
}
use dispatch_api.Orders.Service.{
  ship, deliver, deliver_work, dispatch_notification, mark_payment_as_succeeded,
}
use dispatch_api.Orders.Requests.{OrderRequest as Q, handle}
use dispatch_api.Orders.Atomicity.{handle_rolls_back}
use dispatch_api.Orders.Conformance.{IsAllowed, status_of, handle_conforms}
use dispatch_api.Orders.Refusal.{handle_refuses}
use dispatch_api.Orders.Shipping.{shipped_order, ship_succeeds}
use dispatch_api.Orders.Webhook.{succeeded_from_any_status}
use dispatch_api.Orders.Jobs.{
  OrderJob as J, execute, cancel_execute, process_execute, validate_and_retrieve_order, finish,
  update_order_with_lock,
}
use dispatch_api.Orders.Jobs.Inventory.{quantity_of}
use dispatch_api.Orders.Jobs.Cancel.{lines_of, cancel_restores_stock, cancel_busy_keeps_stock}
use dispatch_api.Orders.Jobs.Once.{execute_twice}
use dispatch_api.Tests.Data.{shop, busy, order, ann, pen}

abbrev label : ShipOrder
label = record { tracking_number = some "T1"; carrier = none }

handle_conforms_example :
    IsAllowed
      (status_of 10 shop.committed)
      (status_of 10 (handle (Q.ship 10 label) shop).1.committed)
handle_conforms_example = handle_conforms (Q.ship 10 label) shipped refl shop 10

missing_order : (handle (Q.deliver 99) shop).0 ≡ some order_not_found
unfolding handle deliver deliver_work lock_and_transaction get_order_or_throw
missing_order = refl

process_ok : (execute J.process 11 shop).0 ≡ ok tt
unfolding execute process_execute transaction validate_and_retrieve_order finish
    update_order_with_lock lock update_status user_id_of dispatch_notification Outbox.add
    can_transition
process_ok = refl

handle_rolls_back_example : (handle (Q.deliver 99) shop).1.committed ≡ shop.committed
handle_rolls_back_example = handle_rolls_back (Q.deliver 99) shop missing_order

handle_refuses_example :
    handle (Q.ship 11 label) shop ≡ (some (bad_preconditions shipped paid), shop)
unfolding can_transition
handle_refuses_example =
    handle_refuses (Q.ship 11 label) shipped shop (order 11 paid) refl refl refl refl

ship_succeeds_example :
    let new = shipped_order label 500 (order 10 processed) in
    let (r, w') = ship 10 label shop in
    (r ≡ ok (to_response (record (load shop.committed (order 10 processed)) { order = new })))
    × (order_by_id 10 w'.committed ≡ some new)
    × (jobs_of w'.committed.outbox
        ≡ jobs_of shop.committed.outbox ++ (notify_user 7 push order_shipped no_data ∷ []))
ship_succeeds_example = ship_succeeds 10 label shop (order 10 processed) ann refl refl refl refl

succeeded_from_any_status_example :
    let new : Order = record (order 10 processed) { status = paid } in
    let (r, w') = mark_payment_as_succeeded 10 shop in
    (r ≡ ok (to_response (record (load shop.committed (order 10 processed)) { order = new })))
    × (order_by_id 10 w'.committed ≡ some new)
    × (jobs_of w'.committed.outbox ≡ jobs_of shop.committed.outbox ++ (process_order 10 ∷ []))
    × (can_transition processed paid ≡ (status_code processed == status_code pending))
succeeded_from_any_status_example = succeeded_from_any_status 10 shop (order 10 processed) refl refl

cancel_restores_stock_example :
    let (r, w') = cancel_execute 11 shop in
    (r ≡ ok tt)
    × (order_by_id 11 w'.committed ≡ some (record (order 11 paid) { status = canceled }))
    × (stock_of 1 w'.committed
        ≡ some (pos 5 +ℤ pos (quantity_of 1 (lines_of (order 11 paid) shop.committed))))
unfolding can_transition
cancel_restores_stock_example =
    cancel_restores_stock 11 shop (order 11 paid) ann 1 pen refl refl refl (λ i. refl) refl refl
      refl

cancel_busy_keeps_stock_example :
    let (r, w') = cancel_execute 11 busy in
    (r ≡ err lock_unavailable)
    × (order_by_id 11 w'.committed ≡ some (order 11 paid))
    × (stock_of 1 w'.committed
        ≡ some (pos 5 +ℤ pos (quantity_of 1 (lines_of (order 11 paid) busy.committed))))
unfolding can_transition
cancel_busy_keeps_stock_example =
    cancel_busy_keeps_stock 11 busy (order 11 paid) 1 pen refl refl (λ i. refl) refl refl refl

execute_twice_example :
    execute J.process 11 (execute J.process 11 shop).1 ≡ (ok tt, (execute J.process 11 shop).1)
execute_twice_example = execute_twice J.process 11 shop (λ i. refl) process_ok
