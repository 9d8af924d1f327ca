-- ===== src/Orders/Currency.antt =====
-- src/modules/orders/helpers/order-functions.ts
use dispatch_api.Prelude.{ℕ, String, if◌then◌else◌}
use dispatch_api.World.{M, gets}
use text.Mathlib.Text.{starts_with}

unfoldable pub language_to_currency : String → String
language_to_currency language =
    if starts_with language "en"
    then "USD"
    else if starts_with language "pt"
    then "BRL"
    else if starts_with language "es"
    then "EUR"
    else "USD"

unfoldable pub language_to_locale : String → String
language_to_locale language =
    if starts_with language "en"
    then "en-US"
    else if starts_with language "pt"
    then "pt-BR"
    else if starts_with language "es"
    then "es-ES"
    else "en-US"

-- toCurrencyFormatted
unfoldable pub to_currency_formatted : ℕ → String → String → M String
to_currency_formatted value locale currency = gets (λ w. w.env.intl_format value locale currency)
