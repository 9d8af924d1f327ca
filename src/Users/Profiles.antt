-- ===== src/Users/Profiles.antt =====
-- The reading operations of src/modules/users/users.service.ts and the filter of user.repository.ts.
use dispatch_api.Prelude.{ℕ, Bool, ◌&&◌, Option, none, String, keep, map_option, truthy}
use dispatch_api.Entities.{User, Db, is_live}
use dispatch_api.Dtos.{CursorParams, PagCursorResult, RequestUser, UserQuery, UserResponse}
use dispatch_api.World.{Env, M, pure, gets, query, ◌>>=◌, ◌>>◌}
use dispatch_api.Pagination.{filter_page, map_page, is_like, limit_of, cursor_limit, require_limit}
use dispatch_api.Pagination.Newest.{newest_first}
use dispatch_api.Users.{get_user_or_throw}
use dispatch_api.Users.Accounts.{address_of, to_base_address, to_self_response, to_user_response}

-- EntityMapper.map(user, PublicUserResponseDto)
abbrev pub to_public_user : User → UserResponse
to_public_user u = record (to_user_response u) { email = none; role = none; language = none }

-- publicFindMe
unfoldable pub public_find_me : RequestUser → M UserResponse
public_find_me request_user = do
  u ← get_user_or_throw request_user.id
  address ← query (address_of u.id)
  pure (record (to_self_response u) { address = map_option to_base_address address })

-- publicFindOne
unfoldable pub public_find_one : ℕ → M UserResponse
public_find_one id = do u ← get_user_or_throw id; pure (to_public_user u)

-- adminFindOne
unfoldable pub admin_find_one : ℕ → M UserResponse
admin_find_one id = do
  u ← get_user_or_throw id
  address ← query (address_of u.id)
  pure (record (to_user_response u) { address = map_option to_base_address address })

abbrev pub matches : Env → UserQuery → User → Bool
matches env q u =
    is_live u.deleted_at
    && (is_like env u.name (truthy q.name) && is_like env u.email (truthy q.email))

-- UserRepository.filter
unfoldable pub filter_users : Env → UserQuery → Option CursorParams → Db → PagCursorResult User
filter_users env q cursor db =
    filter_page (λ (u : User). u.created_at) cursor
      (newest_first (λ (u : User). u.created_at) (λ u. u.id) (keep (matches env q) db.users))

-- publicFindAll; its query has a name at most.
unfoldable pub public_find_all :
    Option String → Option CursorParams → M (PagCursorResult UserResponse)
public_find_all name cursor = do
  env ← gets (λ w. w.env)
  require_limit (limit_of (cursor_limit cursor))
  query (λ db.
      map_page to_public_user (filter_users env (record { name = name; email = none }) cursor db))

-- adminFindAll
unfoldable pub admin_find_all : UserQuery → Option CursorParams → M (PagCursorResult UserResponse)
admin_find_all q cursor = do
  env ← gets (λ w. w.env)
  require_limit (limit_of (cursor_limit cursor))
  query (λ db. map_page to_user_response (filter_users env q cursor db))
