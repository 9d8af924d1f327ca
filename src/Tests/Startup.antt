-- ===== src/Tests/Startup.antt =====
-- Runs of the start, the end and the queue board.
use dispatch_api.Prelude.{
  has_colon, not, ◌&&◌, if◌then◌else◌, ◌≡◌, refl, true, false, some, [], ◌∷◌, arith,
}
use dispatch_api.World.{World, view, is_ok}
use dispatch_api.Outbox.Drained.{cycles}
use dispatch_api.Outbox.Shutdown.{on_module_destroy, shutdown_ends}
use dispatch_api.Seed.{seed_mock_admin_user, mock_admin_exists}
use dispatch_api.Seed.Admin.{CustomersHaveUsers, seed_admin_iff}
use dispatch_api.Web.Ascii.{codes, is_ascii}
use dispatch_api.Web.BasicAuth.{AdminConfig, admitted, refused, admit}
use dispatch_api.Web.Entry.{own_credentials_iff}
use dispatch_api.Tests.Data.{shop}

no_customers : CustomersHaveUsers (view shop)
unfolding CustomersHaveUsers
no_customers user_id h = absurd (ground arith)

seed_admin_iff_example :
    let (r, w') = seed_mock_admin_user shop in
    (view w' ≡ view shop) × (is_ok r ≡ mock_admin_exists (view shop))
seed_admin_iff_example = seed_admin_iff shop no_customers

abbrev config : AdminConfig
config = record { admin_username = some "root"; admin_password = some "a:b" }

own_credentials_iff_example :
    admit (λ s. codes "root:a:b") config (some "Basic cm9vdDphOmI=")
    ≡ (if is_ascii "root" && is_ascii "a:b" && not (has_colon "a:b") then admitted else refused)
own_credentials_iff_example =
    own_credentials_iff (λ s. codes "root:a:b") config "root" "a:b" "Basic cm9vdDphOmI="
      "cm9vdDphOmI=" refl refl refl refl refl (λ all. refl)

-- The shop in the middle of a cycle, and the end of the cycle.
abbrev in_cycle : World
in_cycle = record shop { is_processing = true }

abbrev cycle_ends : World → World
cycle_ends w = record w { is_processing = false }

shutdown_ends_example :
    (w' : World) × (on_module_destroy (cycle_ends ∷ []) in_cycle ≡ some w')
    × (w'.is_processing ≡ false)
    × (cycles 3 w' ≡ w')
shutdown_ends_example = shutdown_ends (cycle_ends ∷ []) 3 in_cycle ((λ w down. down), tt) refl
