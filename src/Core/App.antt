-- ===== src/Core/App.antt =====
-- core/state.rs as far as it is state: the tables and the cache. A handler takes the state to a
-- result and the new state, which an error keeps: what was committed or written to the cache before
-- the error stays. A transaction is one step.
pub mod Keeps
use pstu_backend.Prelude.{Bool, true, false, Option, none, some, if◌then◌else◌, ◌≡◌, refl}
use pstu_backend.Core.Error.{AppError, Result, ok, err}
use pstu_backend.Core.Services.{Services}
use pstu_backend.Store.Schema.{Db}
use pstu_backend.Store.Tx.{Tx, ⊤, run_tx}

pub record AppState (Cache : Type 0) : Type 0 where
  pub db : Db
  pub cache : Cache

-- A handler or a part of one, over a cache of type `C`.
abbrev pub Action : Type 0 → Type 0 → Type 0
Action C A = AppState C → Result A × AppState C

module _ {C : Type 0} where
  -- What follows a step: the next one, or the error, with the state that the step left.
  abbrev pub continue :
      {A B : Type 0} → Result A → AppState C → (A → Action C B) → Result B × AppState C
  continue (ok a) s f = f a s
  continue (err e) s f = (err e, s)

  infixl 5 ◌>>=◌ ◌>>◌
  abbrev pub ◌>>=◌ : {A B : Type 0} → Action C A → (A → Action C B) → Action C B
  ◌>>=◌ m f s = let (r, s') = m s in continue r s' f

  abbrev pub ◌>>◌ : {B : Type 0} → Action C ⊤ → Action C B → Action C B
  m >> k = m >>= λ _. k

  module _ {A : Type 0} where
    abbrev pub pure : A → Action C A
    pure a s = (ok a, s)

    abbrev pub raise : AppError → Action C A
    raise e s = (err e, s)

    abbrev pub lift : Result A → Action C A
    lift r s = (r, s)

    abbrev pub ok_or_raise : AppError → Option A → Action C A
    ok_or_raise e none = raise e
    ok_or_raise e (some a) = pure a

    -- A query outside a transaction.
    abbrev pub query : (Db → A) → Action C A
    query f s = (ok (f s.db), s)

    abbrev pub transaction : Tx A → Action C A
    transaction m s = let (r, db') = run_tx m s.db in (r, record s { db = db' })

    -- A command to the cache, with its reply.
    abbrev pub command : (C → A × C) → Action C A
    command f s = let (a, c) = f s.cache in (ok a, record s { cache = c })

  abbrev pub raise_if : Bool → AppError → Action C ⊤
  raise_if c e s = (if c then err e else ok tt, s)

  -- A write whose error the source drops.
  abbrev pub update_db : (Db → Db) → Action C ⊤
  update_db f s = (ok tt, record s { db = f s.db })

  abbrev pub update_cache : (C → C) → Action C ⊤
  update_cache f s = (ok tt, record s { cache = f s.cache })
