-- ===== src/Startup/Audit.antt =====
-- bin/reconcile.rs: the audit as a program.
use pstu_backend.Prelude.{
  ℕ, ◌*◌, ◌<◌, ◌≡◌, arith, inl, inr, Text, Option, none, some, [], ◌∷◌, length, i64_limit,
}
use pstu_backend.Core.Error.{Result, ok, err, Result-cases}
use pstu_backend.Core.Config.{AppConfig, load_from_env}
use pstu_backend.Core.Limits.{seed_balance_paisa}
use pstu_backend.Core.App.{AppState}
use pstu_backend.Store.Schema.{Db}
use pstu_backend.Reconcile.{ReconcileReport, run_reconciliation}
use pstu_backend.Router.{Server}
use pstu_backend.Router.Served.{Served, Served-reconciles}
use pstu_backend.Startup.Connect.{connect_retrying}

-- How the process ends.
pub data Exit : Type 0 where
  exit : ℕ → Exit
  panic : Exit

abbrev pub exit_of : Result ReconcileReport → Exit
exit_of (err e) = exit 1
exit_of (ok report) = elim report.errors [ [] ↦ exit 0 | x ∷ xs ↦ exit 1 ]

-- `main`, where a database that is connected to shows its tables. What it prints is left out.
unfoldable pub audit : (Text → Option Text) → (Text → ℕ → Option Db) → Exit
audit vars connect = elim (load_from_env vars) [
  | none ↦ panic
  | some config ↦ elim (connect_retrying (connect config.database_url)) [
    | none ↦ panic
    | some db ↦ exit_of (run_reconciliation db)
  ]
]

module _ (vars : Text → Option Text) (connect : Text → ℕ → Option Db) (config : AppConfig) where
  -- The audit program exits with 0 only if the reconciliation of the tables that it has connected to
  -- ends with no violation.
  pub audit-eq-exit :
      (db : Db)
      → audit vars connect ≡ exit 0
      → load_from_env vars ≡ some config
      → connect_retrying (connect config.database_url) ≡ some db
      → (r : ReconcileReport) × (run_reconciliation db ≡ ok r) × (r.errors ≡ [])
  unfolding audit
  audit-eq-exit db h l c = elim (Result-cases (run_reconciliation db)) [
    | inl (r, ran) ↦ (r, ran, ground (arith, h, l, c, ran))
    | inr (e, broke) ↦ absurd (ground (arith, h, l, c, broke))
  ]

  -- On the tables that a server has come to by any requests, the audit program exits with 0, when
  -- its configuration loads, one of its 15 attempts to connect succeeds, and the money that
  -- registration has put in fits a BIGINT.
  pub audit-Served :
      (V : Server) (s : AppState V.services.Cache)
      → Served V s
      → length s.db.users * seed_balance_paisa < i64_limit
      → load_from_env vars ≡ some config
      → connect_retrying (connect config.database_url) ≡ some s.db
      → audit vars connect ≡ exit 0
  unfolding audit
  audit-Served V s h fits l c =
      let (r, ran, clean, counted) = Served-reconciles V s h fits in
      ground (arith, l, c, ran, clean)
