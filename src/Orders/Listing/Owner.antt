-- ===== src/Orders/Listing/Owner.antt =====
-- What a user can see of the orders (src/modules/orders/orders.service.ts).
use dispatch_api.Prelude.Int.{ℤ, pos, negsuc}
use dispatch_api.Prelude.{
  ◌-◌, ◌+◌, length, if◌then◌else◌, ℕ, Bool, false, not, ◌≡◌, refl, ap, ◌∙◌, ◌&&◌, ◌==◌, Option,
  none, some, List, [], ◌∷◌, exists, keep, arith,
}
use dispatch_api.Entities.{Order, Db, is_live}
use dispatch_api.Dtos.{CursorParams}
use dispatch_api.World.{negative_limit, World, ok, err, order_access_denied, view}
use dispatch_api.Pagination.{slice, is_refused, map_page, limit_of, cursor_limit, is_after_cursor}
use dispatch_api.Pagination.Newest.{newest_first, exists-newest_first, exists-keep, exists-take}
use dispatch_api.Pagination.Pages.{filter_page-items}
use dispatch_api.Orders.Store.{order_by_id, load, get_order_or_throw, to_public_response}
use dispatch_api.Orders.Service.{public_find_one}
use dispatch_api.Orders.Listing.{OrderQuery, matches, filter_orders, public_find_by_user}

-- An order that a user is not to see: of another user, or deleted.
abbrev pub is_hidden_from : ℕ → Order → Bool
is_hidden_from user_id o = not (o.user_id == user_id && is_live o.deleted_at)

no_hidden :
    (db : Db) (q : OrderQuery) (user_id : ℕ) (os : List Order)
    → exists (is_hidden_from user_id) (keep (matches db (record q { user_id = some user_id })) os)
      ≡ false
no_hidden db q user_id [] = refl
no_hidden db q user_id (o ∷ os) = ground (arith, no_hidden db q user_id os)

exists-slice :
    (p : Order → Bool) (limit : ℤ) (os : List Order)
    → exists p os ≡ false
    → exists p (slice limit os) ≡ false
exists-slice p (pos n) os h = exists-take p n os h
exists-slice p (negsuc n) os h = exists-take p (length os - (n + 1)) os h

-- The listing of a user, if its limit is not below -1, which the database refuses, is made of a page of orders that are all the user's own and not deleted, whatever
-- user the query names.
pub lists_own_orders :
    (q : OrderQuery) (user_id : ℕ) (cursor : Option CursorParams) (w : World)
    → let page = filter_orders (record q { user_id = some user_id }) cursor (view w) in
      (public_find_by_user q user_id cursor w ≡ (
        if is_refused (limit_of (cursor_limit cursor))
            then err negative_limit
            else ok (map_page (λ o. to_public_response (load (view w) o) none) page),
        w,
      ))
      × (exists (is_hidden_from user_id) page.items ≡ false)
unfolding public_find_by_user filter_orders
lists_own_orders q user_id cursor w =
    let hidden = is_hidden_from user_id in
    let found = keep (matches (view w) (record q { user_id = some user_id })) (view w).orders in
    let sorted = newest_first (λ (o : Order). o.created_at) (λ o. o.id) found in
    let after = λ (o : Order). is_after_cursor cursor o.created_at in
    (
      ground arith,
      ap (exists hidden) (filter_page-items (λ (o : Order). o.created_at) cursor sorted)
          ∙ exists-slice hidden (limit_of (cursor_limit cursor)) (keep after sorted) (
              exists-keep hidden after sorted (
                exists-newest_first (λ (o : Order). o.created_at) (λ o. o.id) hidden found
                  (no_hidden (view w) q user_id (view w).orders))),
    )

-- A user who asks for an order of somebody else is refused, and nothing is changed.
pub denies_other_users :
    (id user_id : ℕ) (w : World) (o : Order)
    → order_by_id id (view w) ≡ some o
    → o.user_id == user_id ≡ false
    → public_find_one id user_id w ≡ (err order_access_denied, w)
unfolding public_find_one get_order_or_throw
denies_other_users id user_id w o found other = ground arith
