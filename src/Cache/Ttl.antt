-- ===== src/Cache/Ttl.antt =====
-- src/shared/constants/cache-ttl.constant.ts, in milliseconds; the clock counts microseconds, as the database does.
use dispatch_api.Prelude.{ℕ, ◌*◌}

-- A time to live on the clock.
abbrev pub micros : ℕ → ℕ
micros ttl = 1000 * ttl

abbrev pub default_ttl : ℕ
default_ttl = 5 * 60 * 1000

abbrev pub list : ℕ
list = 5 * 60 * 1000

abbrev pub auth_blacklist : ℕ
auth_blacklist = 15 * 60 * 1000

abbrev pub idempotency : ℕ
idempotency = 24 * 60 * 60 * 1000
