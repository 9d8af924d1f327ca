-- ===== src/Pagination/Cursor.antt =====
-- The text of a cursor: `encodeCursor` of the repositories, and src/shared/providers/pipes/cursor-params.pipe.ts.
use Prim.Native.Nat.{◌/◌}
use dispatch_api.Prelude.{ℕ, ◌*◌, Option, none, some, String, map_option, truthy}
use dispatch_api.Dtos.{CursorParams, PagCursorResult}
use dispatch_api.World.{Env, invalid_cursor, syntax_error, M, pure, raise, gets, or_raise, ◌>>=◌}

-- `toISOString()` of a time, which has the milliseconds of it.
abbrev pub to_millis : ℕ → ℕ
to_millis t = t / 1000 * 1000

-- The `nextCursor` that a page is sent with: encodeCursor of the time of its last row.
abbrev pub next_cursor_text : {A : Type 0} → Env → PagCursorResult A → Option String
next_cursor_text env page = map_option (λ t. env.encode_cursor (to_millis t)) page.next_cursor

abbrev pub require_start : CursorParams → M (Option CursorParams)
require_start c = elim c.starting_after [ none ↦ raise invalid_cursor | some s ↦ pure (some c) ]

abbrev pub parse : Option String → M (Option CursorParams)
parse none = pure none
parse (some text) = do
  answer ← gets (λ w. w.env.decode_cursor text)
  c ← or_raise answer syntax_error
  require_start c

-- CursorParamsPipe.transform
unfoldable pub cursor_pipe : Option String → M (Option CursorParams)
cursor_pipe value = parse (truthy value)
