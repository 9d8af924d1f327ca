-- ===== src/Tests/Parts.antt =====
-- Runs of the parts below and beside the orders.
use dispatch_api.Prelude.Int.{pos, ltb_ℤ}
use dispatch_api.Prelude.{
  ◌+◌, ◌*◌, ℕ, ◌≡◌, ◌⊎◌, refl, false, not, none, some, [], ◌∷◌, length, keep, if◌then◌else◌,
}
use dispatch_api.Entities.{Item}
use dispatch_api.Dtos.{UpdateItem, CursorParams, CacheValue, item_value, job_value}
use dispatch_api.World.{
  World, CacheKey, item_create_once, order_job_once, M, pure, ok, gateway_failed, raise,
}
use dispatch_api.Guard.{release}
use dispatch_api.Cache.{get, set, get_or_execute}
use dispatch_api.Cache.Replay.{get_or_execute_replays}
use dispatch_api.Jobs.{JobHandler, process, execute_job, job_lock, run_handler}
use dispatch_api.Jobs.Marker.{marker, begun, status_of, job_is_run}
use dispatch_api.Outbox.Cron as Cron
use dispatch_api.Outbox.Cycle.{batch, Delivered, process_loses_nothing}
use dispatch_api.Pagination.{limit_of, is_after_cursor, last, time_of, filter_page, slice}
use dispatch_api.Pagination.Pages.{HasSize, filter_page_lem}
use dispatch_api.Items.{
  to_item_response, public_find_one, admin_find_one, admin_update, assign_item, to_public_item,
}
use dispatch_api.Items.Cached.{public_reads_admin_entry, update_is_read}
use dispatch_api.Tests.Data.{shop, pen, ink, job}

process_loses_nothing_example :
    let (r, w') = Cron.process shop in
    (r ≡ ok tt)
    × (w'.is_processing ≡ false)
    × ((w'.committed ≡ shop.committed)
        ⊎ (Delivered (batch shop) shop w'
            × (w'.committed.outbox
                ≡ keep (λ m. not (Cron.has_id (batch shop) m.id)) shop.committed.outbox)))
process_loses_nothing_example = process_loses_nothing shop refl refl

abbrev key : CacheKey
key = record { space = item_create_once; id = 3 }

abbrev answer : ℕ → M CacheValue
answer n = pure (item_value (to_item_response (record pen { id = n })))

answers : (get_or_execute key (answer 1) shop).0 ≡ ok (item_value (to_item_response pen))
unfolding get_or_execute get set
answers = refl

-- An hour later.
abbrev an_hour_later : World
an_hour_later = record (get_or_execute key (answer 1) shop).1 { now = 500 + 3600 * 1000 * 1000 }

get_or_execute_replays_example :
    get_or_execute key (answer 2) an_hour_later
    ≡ (ok (item_value (to_item_response pen)), an_hour_later)
get_or_execute_replays_example =
    get_or_execute_replays key (answer 1) (answer 2) shop an_hour_later
      (item_value (to_item_response pen)) refl answers refl refl

abbrev job_key : CacheKey
job_key = record { space = order_job_once; id = 30 }

-- A handler that always throws.
abbrev broken : JobHandler
broken = record { execute = λ j. raise gateway_failed; execute_after_fail = λ j. pure tt }

job_is_run_example :
    let (result, left) = run_handler process broken job (begun job job_key shop) in
    let (r, w') = execute_job (λ j. some broken) process job job_key shop in
    (r ≡ result)
    × (marker job_key w' ≡ some (job_value (status_of result)))
    × (w'.committed ≡ left.committed)
    × (w'.held ≡ release (job_lock job.job_id) left.held)
    × (w'.correlation ≡ shop.correlation)
job_is_run_example =
    job_is_run (λ j. some broken) process job job_key broken shop refl refl refl refl

abbrev cursor : CursorParams
cursor = record { starting_after = some 9; limit = some (pos 1) }

filter_page_lem_example :
    let limit = limit_of (some (pos 1)) in
    let wanted = keep (λ (i : Item). is_after_cursor (some cursor) i.created_at) (pen ∷ ink ∷ []) in
    let page = filter_page (λ (i : Item). i.created_at) (some cursor) (pen ∷ ink ∷ []) in
    HasSize limit (length wanted) (length page.items)
    × (page.items ≡ slice limit wanted)
    × (page.has_more ≡ ltb_ℤ limit (pos (length wanted)))
    × (page.next_cursor ≡ (
        if page.has_more
        then time_of (λ (i : Item). i.created_at) (last (λ (i : Item). i.created_at) page.items)
        else none))
filter_page_lem_example =
    filter_page_lem (λ (i : Item). i.created_at) (some cursor) (pen ∷ ink ∷ []) refl

public_reads_admin_entry_example :
    (public_find_one 1 (admin_find_one 1 shop).1).0 ≡ ok (item_value (to_item_response pen))
public_reads_admin_entry_example = public_reads_admin_entry 1 shop pen refl refl refl

-- A new price only.
abbrev cheaper : UpdateItem
cheaper = record {
  name = none;
  description = none;
  stock = none;
  price = some 1;
  price_payment_id = none;
}

update_is_read_example :
    (public_find_one 1 (admin_update 1 cheaper shop).1).0
    ≡ ok (item_value (to_public_item (assign_item cheaper pen)))
update_is_read_example = update_is_read 1 cheaper shop pen refl refl refl
