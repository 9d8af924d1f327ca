-- ===== src/Tests/Sessions.antt =====
-- Runs of signing in, renewing and signing out.
use dispatch_api.Prelude.{◌+◌, ◌*◌, ◌≡◌, refl, none, some, ◌∷◌, [], ◌++◌}
use dispatch_api.Enums.{user, push, NotificationEvent}
use dispatch_api.Entities.{notify_user, no_data}
use dispatch_api.Dtos.{RequestUser}
use dispatch_api.World.{ok, err, invalid_refresh_token, token_revoked}
use dispatch_api.Outbox.Waiting.{jobs_of}
use dispatch_api.Auth.{login, logout, refresh, validate}
use dispatch_api.Auth.Signing.{user_row}
use dispatch_api.Auth.Sessions.{login_succeeds, logout_revokes, refresh_ends_session}
use dispatch_api.Tests.Data.{shop, signed_in, ann, member}

login_succeeds_example :
    let (result, w') = login "ann@shop" "hash" shop in
    (result
      ≡ ok (record {
        access_token = "access";
        refresh_token = "refresh";
        user_id = 7;
        language = "pt-BR";
      }))
    × (user_row 7 w'.committed ≡ some (record ann { refresh_token = some "refresh" }))
    × (jobs_of w'.committed.outbox
        ≡ jobs_of shop.committed.outbox
          ++ (notify_user 7 push NotificationEvent.auth_login no_data ∷ []))
login_succeeds_example = login_succeeds "ann@shop" "hash" shop ann refl refl refl refl refl refl

-- A request with a refresh token that is not the stored one.
abbrev stale : RequestUser
stale = record {
  id = 7;
  email = "ann@shop";
  role = user;
  language = "en";
  jti = 3;
  refresh_token = some "t0";
}

refresh_ends_session_example :
    let (result, w') = refresh stale signed_in in
    (result ≡ err invalid_refresh_token)
    × (user_row 7 w'.committed ≡ some (record member { refresh_token = none }))
    × ((validate 3 (record w' { now = signed_in.now + 600 * 1000 * 1000 })).0 ≡ err token_revoked)
refresh_ends_session_example =
    refresh_ends_session stale "t0" "t1" signed_in member member (signed_in.now + 600 * 1000 * 1000)
      refl refl refl refl refl refl refl refl refl

logout_revokes_example :
    let (result, w') = logout stale signed_in in
    (result ≡ ok tt)
    × (user_row 7 w'.committed ≡ some (record member { refresh_token = none }))
    × ((validate 3 (record w' { now = signed_in.now + 600 * 1000 * 1000 })).0 ≡ err token_revoked)
logout_revokes_example =
    logout_revokes stale signed_in member (signed_in.now + 600 * 1000 * 1000) refl refl refl refl
