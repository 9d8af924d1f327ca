-- ===== src/Tests/Followed.antt =====
-- A run of a request with its id.
use dispatch_api.Prelude.{some, none, []}
use dispatch_api.World.{World}
use dispatch_api.Outbox
use dispatch_api.Web.Correlation.{Headers}
use dispatch_api.Tests.Data.{shop, db}

abbrev headers : Headers
headers = record { x_correlation_id = none; x_request_id = some 555 }

abbrev quiet : World
quiet = record shop { committed = record db { outbox = [] } }
