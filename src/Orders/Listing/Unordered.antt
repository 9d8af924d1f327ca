-- ===== src/Orders/Listing/Unordered.antt =====
-- The listing of orders and the order of the rows in the database (order.repository.ts).
use mathlib.Core.Quot
use mathlib.Core.Quot.{Quot, Quot-set}
use native.Mathlib.Nat.{ℕ_set}
use text.Mathlib.TextEquality.{IsScalar-prop}
use dispatch_api.Prelude.{distinct, distinct-keep, ◌≡◌, sym, ap, true, Option, List}
use dispatch_api.Entities.{Order, Db}
use dispatch_api.Dtos.{CursorParams, PagCursorResult}
use dispatch_api.Pagination.{filter_page}
use dispatch_api.Pagination.Unordered.{Reordered, keep-Reordered, newest_first-Reordered}
use dispatch_api.Orders.Listing.{OrderQuery, matches, filter_orders}

-- The rows of the table of orders, with the primary key kept, in the order in which the database holds them.
abbrev pub Rows : Type 0
Rows = (os : List Order) × (distinct (λ (o : Order). o.id) os ≡ true)

abbrev pub SameRows : Rows → Rows → Type 0
SameRows r s = Reordered r.0 s.0

-- The table as SQL sees it: its rows in no order.
abbrev pub OrderTable : Type 0
OrderTable = Quot SameRows

pub page-set : IsSet (PagCursorResult Order)
page-set = hlevel (ℕ_set, IsScalar-prop)

pub filter_orders-Reordered :
    (q : OrderQuery) (cursor : Option CursorParams) (db : Db) (r s : Rows)
    → SameRows r s
    → filter_orders q cursor (record db { orders = r.0 })
      ≡ filter_orders q cursor (record db { orders = s.0 })
unfolding filter_orders
filter_orders-Reordered q cursor db r s reordered =
    ap (filter_page (λ (o : Order). o.created_at) cursor) (
      newest_first-Reordered (λ (o : Order). o.created_at) (λ o. o.id)
        (keep-Reordered (matches db q) reordered)
        (distinct-keep (λ (o : Order). o.id) (matches db q) r.0 r.1))

-- The page of a query, of a table in which the rows have no order.
unfoldable pub page_of_table :
    OrderQuery → Option CursorParams → Db → OrderTable → PagCursorResult Order
page_of_table q cursor db =
    Quot.lift page-set (λ r. filter_orders q cursor (record db { orders = r.0 }))
      (filter_orders-Reordered q cursor db)

-- In whatever order the database holds the rows of the orders, no two of which have one id, a query gets the same
-- page: it is that of the table without an order.
pub listing_forgets_order :
    (q : OrderQuery) (cursor : Option CursorParams) (db : Db) (r s : Rows)
    → SameRows r s
    → (filter_orders q cursor (record db { orders = r.0 })
        ≡ filter_orders q cursor (record db { orders = s.0 }))
      × (filter_orders q cursor (record db { orders = s.0 })
          ≡ page_of_table q cursor db (Quot.mk r))
unfolding page_of_table
listing_forgets_order q cursor db r s reordered =
    let e = filter_orders-Reordered q cursor db r s reordered in (e, sym e)
