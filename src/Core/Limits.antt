-- ===== src/Core/Limits.antt =====
-- The constants of the services: features/auth/service.rs, features/transfers/service.rs,
-- features/links/service.rs, core/pin.rs, core/money.rs and features/history/service.rs.
use pstu_backend.Prelude.{ℕ}

abbrev pub seed_balance_paisa : ℕ
seed_balance_paisa = 10000000

abbrev pub per_transfer_cap_paisa : ℕ
per_transfer_cap_paisa = 5000000

abbrev pub daily_outflow_cap_paisa : ℕ
daily_outflow_cap_paisa = 20000000

abbrev pub max_paisa_amount : ℕ
max_paisa_amount = 10000000000

abbrev pub max_pin_failures : ℕ
max_pin_failures = 5

abbrev pub max_login_failures : ℕ
max_login_failures = 5

abbrev pub lockout_seconds : ℕ
lockout_seconds = 900

abbrev pub min_link_ttl_secs : ℕ
min_link_ttl_secs = 60

abbrev pub max_link_ttl_secs : ℕ
max_link_ttl_secs = 86400
