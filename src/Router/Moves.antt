-- ===== src/Router/Moves.antt =====
-- Which requests can move money.
use pstu_backend.Prelude.{◌≡◌, refl, ◌⊎◌, inl, inr, Uuid, Option, none, some}
use mathlib.Core.Path.{subst}
use pstu_backend.Core.Error.{Result, ok, err}
use pstu_backend.Core.App.{AppState}
use pstu_backend.Store.Schema.{Db}
use pstu_backend.Books.Still.{Still, Still-refl}
use pstu_backend.Auth.Sessions.{Parts}
use pstu_backend.System.{Call}
use pstu_backend.System.Entitled.{Entitled, serve-Entitled}
use pstu_backend.Http.{Draw}
use pstu_backend.Router.{Server, Endpoint, handle}
use pstu_backend.Router.Gate.{gate, call_of}
use pstu_backend.Router.Admitted.{Passed, gate-db, gate-Passed}
use pstu_backend.Router.Refines.{perform, after, handle_state}

module _ (V : Server) (r : Endpoint) (p : Parts) (d : Draw) (s : AppState V.services.Cache) where
  open V use {services}

  abbrev let_in : AppState services.Cache
  let_in = (gate V r p d s).1

  -- A request that has passed the gate for its user, and whose call may move money after that.
  pub record MayMove : Type 0 where
    pub caller : Option Uuid
    pub passed : Passed V r p d s caller
    pub call : Call
    pub called : call_of V r caller p ≡ some call
    pub entitled : Entitled services let_in call

  perform-MayMove :
      (caller : Option Uuid) (o : Option Call)
      → (gate V r p d s).0 ≡ ok caller
      → call_of V r caller p ≡ o
      → Still let_in.db (perform V o let_in).db ⊎ MayMove
  perform-MayMove caller none g e = inl (Still-refl let_in.db)
  perform-MayMove caller (some call) g e = elim (serve-Entitled services let_in call) [
    | inl still ↦ inl still
    | inr entitled ↦ inr (record {
      caller = caller;
      passed = gate-Passed V r p d s caller g;
      call = call;
      called = e;
      entitled = entitled;
    })
  ]

  after-MayMove :
      (x : Result (Option Uuid))
      → (gate V r p d s).0 ≡ x
      → Still let_in.db (after V r p x let_in).db ⊎ MayMove
  after-MayMove (err e) g = inl (Still-refl let_in.db)
  after-MayMove (ok caller) g = perform-MayMove caller (call_of V r caller p) g refl

  -- A request to any route leaves every balance and every ledger row as it was, unless it has passed
  -- the gate and its call, in the state that the gate left, is a registration, or a transfer, an
  -- acceptance or a claim by the user of its session, who exists, is not locked out and has given
  -- the PIN of the kept hash.
  pub handle-MayMove : Still s.db (handle V r p d s).1.db ⊎ MayMove
  handle-MayMove = rw (handle_state V r p d s) (
      subst (λ (db : Db). Still db (after V r p (gate V r p d s).0 let_in).db ⊎ MayMove)
        (gate-db V r p d s) (after-MayMove (gate V r p d s).0 refl))
