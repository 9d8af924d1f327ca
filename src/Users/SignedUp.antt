-- ===== src/Users/SignedUp.antt =====
-- The state after publicCreate of src/modules/users/users.service.ts has made an account.
use dispatch_api.Prelude.{
  ℕ, ◌+◌, ◌≡◌, ◌&&◌, ◌==◌, ==_refl, true, false, none, some, find, find-append, [], ◌∷◌, ◌++◌,
  arith,
}
use dispatch_api.Entities.{User, UserSnapshot}
use dispatch_api.Dtos.{CreateUser}
use dispatch_api.World.{World, view-write, user_create}
use dispatch_api.Guard.{is_held, opened, lock, transaction, lock_and_transaction}
use dispatch_api.Cache.{get_or_execute, get, set, has_key, is_fresh}
use dispatch_api.Outbox.Waiting.{message_of, push_message, add_lem}
use dispatch_api.Users.{snapshot_of, row_by_id}
use dispatch_api.Users.Accounts.{public_create, public_create_once, email_count}
use dispatch_api.Users.NewAccount.{is_complete, new_account}
use dispatch_api.Users.Created.{
  with_user, with_all, queued, work_lem, with_address-view, public_create_succeeds,
}

-- A request for an account that is accepted; the id of the account is one that no row has.
pub record Accepted (dto : CreateUser) (key : ℕ) (w : World) : Type 0 where
  pub free : is_held (record { space = user_create; id = key }) w.held ≡ false
  pub first : find (λ e. has_key (public_create_once key) e && is_fresh w.now e) w.cache ≡ none
  pub new : email_count dto.email w.committed.users ≡ 0
  pub complete : is_complete dto.address ≡ true
  pub unused : find (λ u. u.id == w.next_id + 1) w.committed.users ≡ none

module _ (dto : CreateUser) (key : ℕ) (w : World) (a : Accepted dto key w) where
  -- The state that the row of the outbox is made in.
  abbrev pub row_made : World
  row_made =
      with_all dto (opened (record w { held = record { space = user_create; id = key } ∷ w.held }))

  abbrev pub account_snapshot : UserSnapshot
  account_snapshot = record (snapshot_of (new_account dto w)) { address = dto.address }

  pub signed_up-tx : (public_create dto key w).1.tx ≡ w.tx
  unfolding public_create lock_and_transaction lock transaction get_or_execute get set
  signed_up-tx = ground (
    arith,
    a.free,
    a.first,
    work_lem dto (opened (record w { held = record { space = user_create; id = key } ∷ w.held }))
        a.new a.complete,
  )

  pub signed_up-outbox :
      (public_create dto key w).1.committed.outbox
      ≡ w.committed.outbox ++ (message_of (queued dto w) row_made ∷ [])
  unfolding public_create lock_and_transaction lock transaction get_or_execute get set
  signed_up-outbox =
      let v = opened (record w { held = record { space = user_create; id = key } ∷ w.held }) in
      let m = message_of (queued dto v) row_made in
      let (users, outbox) = with_address-view dto.address (w.next_id + 1) (with_user dto v) in
      ground (
        arith,
        a.free,
        a.first,
        work_lem dto v a.new a.complete,
        add_lem (queued dto v) row_made,
        outbox,
        view-write (push_message m) row_made,
      )

  pub signed_up-row :
      row_by_id (w.next_id + 1) (public_create dto key w).1.committed ≡ some (new_account dto w)
  signed_up-row =
      let (answer, users, jobs) =
        public_create_succeeds dto key w a.free a.first a.new a.complete in
      rw users (
        ground (
          arith,
          a.unused,
          find-append (λ (u : User). u.id) (new_account dto w) w.committed.users (w.next_id + 1),
          ==_refl (w.next_id + 1),
        ))
