-- ===== src/Router/Served.antt =====
-- A server from its start on an empty database: request after request through the routes.
use pstu_backend.Prelude.{◌*◌, ◌<◌, ◌≡◌, sym, Uuid, Option, none, some, [], length, i64_limit}
use mathlib.Core.Path.{subst}
use pstu_backend.Core.Error.{Result, ok, err}
use pstu_backend.Core.Limits.{seed_balance_paisa}
use pstu_backend.Core.App.{AppState}
use pstu_backend.Store.Schema.{Db, empty_db}
use pstu_backend.Auth.Sessions.{Parts}
use pstu_backend.System.{Call, Reachable, start, served, cache_changed}
use pstu_backend.System.Reconciles.{Reachable-reconciles}
use pstu_backend.Reconcile.{ReconcileReport, run_reconciliation}
use pstu_backend.Http.{Draw}
use pstu_backend.Router.{Server, Endpoint, handle}
use pstu_backend.Router.Gate.{gate, call_of}
use pstu_backend.Router.Admitted.{gate-db}
use pstu_backend.Router.Refines.{perform, after, handle_state}

module _ (V : Server) where
  open V use {services}

  -- The state after some requests, of any kind and with any input, parts and draws; in between the
  -- cache may change in any way.
  pub data Served : AppState services.Cache → Type 0 where
    opened : (c : services.Cache) → Served (record { db = empty_db; cache = c })
    asked :
        (r : Endpoint) (p : Parts) (d : Draw) (s : AppState services.Cache)
        → Served s
        → Served (handle V r p d s).1
    lapsed :
        (db : Db) (c c' : services.Cache)
        → Served (record { db = db; cache = c })
        → Served (record { db = db; cache = c' })

  recached :
      (db : Db) (s s' : AppState services.Cache)
      → s'.db ≡ s.db
      → Reachable services s
      → Reachable services s'
  recached db s s' e h =
      subst (λ x. Reachable services (record { db = x; cache = s'.cache })) (sym e)
        (cache_changed s.db s.cache s'.cache h)

  perform-Reachable :
      (call : Option Call) (s : AppState services.Cache)
      → Reachable services s
      → Reachable services (perform V call s)
  perform-Reachable none s h = h
  perform-Reachable (some call) s h = served s call h

  after-Reachable :
      (r : Endpoint) (p : Parts) (x : Result (Option Uuid)) (s : AppState services.Cache)
      → Reachable services s
      → Reachable services (after V r p x s)
  after-Reachable r p (ok caller) s h = perform-Reachable (call_of V r caller p) s h
  after-Reachable r p (err e) s h = h

  -- Every state that a server comes to from an empty database, by requests to its routes of any
  -- kind, with any input, headers and cookies, and whatever becomes of the cache in between, is one
  -- that the calls of System come to.
  pub Served-Reachable : (s : AppState services.Cache) → Served s → Reachable services s
  Served-Reachable _ (opened c) = start c
  Served-Reachable _ (asked r p d s h) = rw (handle_state V r p d s) (
      after-Reachable r p (gate V r p d s).0 (gate V r p d s).1
        (recached s.db s (gate V r p d s).1 (gate-db V r p d s) (Served-Reachable s h)))
  Served-Reachable _ (lapsed db c c' h) =
      cache_changed db c c' (Served-Reachable (record { db = db; cache = c }) h)

  -- In every such state the reconciliation runs to its end, reports no violation and counts every user
  -- as reconciled, as long as the money that registration has put in fits a BIGINT.
  pub Served-reconciles :
      (s : AppState services.Cache)
      → Served s
      → length s.db.users * seed_balance_paisa < i64_limit
      → (r : ReconcileReport) × (run_reconciliation s.db ≡ ok r)
        × (r.errors ≡ [])
        × (r.users_reconciled ≡ length s.db.users)
  Served-reconciles s h fits = Reachable-reconciles services s (Served-Reachable s h) fits
