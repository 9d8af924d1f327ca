-- ===== src/Users/Created.antt =====
-- How publicCreate of src/modules/users/users.service.ts ends.
use dispatch_api.Prelude.{
  ℕ, ◌+◌, ◌≡◌, ◌&&◌, refl, true, false, none, some, Option, find, [], ◌∷◌, ◌++◌, arith,
}
use dispatch_api.Entities.{JobBody, BaseAddress, create_customer}
use dispatch_api.Dtos.{CreateUser, CacheValue, user_value}
use dispatch_api.World.{World, view, view-write, write_world, ok, user_create}
use dispatch_api.Guard.{is_held, opened, lock, transaction, lock_and_transaction}
use dispatch_api.Cache.{get_or_execute, get, set, has_key, is_fresh}
use dispatch_api.Outbox
use dispatch_api.Outbox.Waiting.{jobs_of, message_of, push_message, add_lem, jobs-push}
use dispatch_api.Users.{snapshot_of}
use dispatch_api.Users.Accounts.{
  public_create, public_create_work, public_create_once, email_count, to_self_response,
}
use dispatch_api.Users.NewAccount.{
  is_complete, new_account, add_user, email_exists_lem, save_new_user_lem, with_address,
  save_optional_address_lem, saved_row_back,
}

-- The state after the work.
abbrev pub with_user : CreateUser → World → World
with_user dto w = write_world (add_user (new_account dto w)) (record w { next_id = w.next_id + 2 })

abbrev pub with_all : CreateUser → World → World
with_all dto w = with_address dto.address (w.next_id + 1) (with_user dto w)

abbrev pub queued : CreateUser → World → JobBody
queued dto w = create_customer (record (snapshot_of (new_account dto w)) { address = dto.address })

abbrev answer : CreateUser → World → CacheValue
answer dto w = user_value (record (to_self_response (new_account dto w)) { address = dto.address })

pub work_lem :
    (dto : CreateUser) (w : World)
    → email_count dto.email (view w).users ≡ 0
    → is_complete dto.address ≡ true
    → public_create_work dto w ≡ (ok (answer dto w), (Outbox.add (queued dto w) (with_all dto w)).1)
unfolding public_create_work
work_lem dto w new complete =
    let u = new_account dto w in
    let v = with_all dto w in
    ground (
      arith,
      email_exists_lem dto.email w new,
      save_new_user_lem dto w new,
      save_optional_address_lem dto.address u.id (with_user dto w) complete,
      saved_row_back dto.address u.id (with_user dto w) complete,
      add_lem (queued dto w) v,
    )

pub with_address-view :
    (o : Option BaseAddress) (user_id : ℕ) (w : World)
    → ((view (with_address o user_id w)).users ≡ (view w).users)
      × ((view (with_address o user_id w)).outbox ≡ (view w).outbox)
unfolding with_address
with_address-view none user_id w = (refl, refl)
with_address-view (some a) user_id w = (ground arith, ground arith)

-- With its lock free and its key new, a request with an email that no row has, and with no address or
-- one with all columns that are required, makes an account: a user in the role of a customer with the
-- password hashed, whose language is English whatever the request says; the answer holds the
-- account and the address, and the making of the customer is queued.
pub public_create_succeeds :
    (dto : CreateUser) (key : ℕ) (w : World)
    → is_held (record { space = user_create; id = key }) w.held ≡ false
    → find (λ e. has_key (public_create_once key) e && is_fresh w.now e) w.cache ≡ none
    → email_count dto.email w.committed.users ≡ 0
    → is_complete dto.address ≡ true
    → let (r, w') = public_create dto key w in
      let u = new_account dto w in
      (r ≡ ok (user_value (record (to_self_response u) { address = dto.address })))
      × (w'.committed.users ≡ w.committed.users ++ (u ∷ []))
      × (jobs_of w'.committed.outbox
          ≡ jobs_of w.committed.outbox
            ++ (create_customer (record (snapshot_of u) { address = dto.address }) ∷ []))
unfolding public_create lock_and_transaction lock transaction get_or_execute get set
public_create_succeeds dto key w free first new complete =
    let v = opened (record w { held = record { space = user_create; id = key } ∷ w.held }) in
    let v' = with_all dto v in
    let m = message_of (queued dto v) v' in
    let (users, outbox) = with_address-view dto.address (w.next_id + 1) (with_user dto v) in
    let work = work_lem dto v new complete in
    let added = add_lem (queued dto v) v' in
    (
      ground (arith, free, first, work),
      ground (arith, free, first, work, added, users, view-write (push_message m) v'),
      ground (
        arith,
        free,
        first,
        work,
        added,
        outbox,
        view-write (push_message m) v',
        jobs-push m w.committed.outbox,
      ),
    )
