-- ===== src/Tests/Listings.antt =====
-- Runs of the listings.
use dispatch_api.Prelude.{refl, ◌++◌, ◌∷◌, [], ◌≡◌, false, none, some, exists, if◌then◌else◌}
use dispatch_api.Enums.{paid}
use dispatch_api.World.{ok, err, negative_limit}
use dispatch_api.Pagination.{map_page, is_refused, limit_of, cursor_limit}
use dispatch_api.Orders.Store.{load, to_public_response}
use dispatch_api.Orders.Listing.{OrderQuery, filter_orders, public_find_by_user}
use dispatch_api.Orders.Listing.Owner.{is_hidden_from, lists_own_orders}
use dispatch_api.Prelude.Int.{pos}
use dispatch_api.Dtos.{CreateItem, ItemQuery, item_page, item_value}
use dispatch_api.Items.{admin_create, to_public_item, to_item_response}
use dispatch_api.Items.Listing.{filter_items, public_find_all}
use dispatch_api.Items.Listed.{new_item, create_is_listed}
use dispatch_api.Tests.Data.{shop, db}

abbrev any_order : OrderQuery
any_order = record { user_id = some 8; status = some paid; start_date = none; end_date = none }

lists_own_orders_example :
    let page = filter_orders (record any_order { user_id = some 7 }) none db in
    (public_find_by_user any_order 7 none shop ≡ (
      if is_refused (limit_of (cursor_limit none))
          then err negative_limit
          else ok (map_page (λ o. to_public_response (load db o) none) page),
      shop,
    ))
    × (exists (is_hidden_from 7) page.items ≡ false)
lists_own_orders_example = lists_own_orders any_order 7 none shop

abbrev eraser : CreateItem
eraser = record {
  name = "Eraser";
  description = "white";
  stock = pos 3;
  price = 2;
  price_payment_id = none;
}

abbrev any_item : ItemQuery
any_item = record { name = none; description = none; cursor = none }

create_is_listed_example :
    let item = new_item eraser shop.next_id shop.now in
    let (r, w') = admin_create eraser 4 shop in
    (r ≡ ok (item_value (to_item_response item)))
    × ((public_find_all any_item w').0
        ≡ ok (
            item_page (
              map_page to_public_item (
                filter_items shop.env any_item
                  (record shop.committed { items = shop.committed.items ++ (item ∷ []) })))))
create_is_listed_example = create_is_listed eraser 4 any_item shop refl refl refl refl
