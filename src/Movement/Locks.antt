-- ===== src/Movement/Locks.antt =====
-- The order in which a movement locks its two balances.
use pstu_backend.Prelude.{◌≤◌, ◌≡◌, arith, Uuid}
use pstu_backend.Store.Schema.{Db}
use pstu_backend.Store.Statements.{lock_balances}
use pstu_backend.Movement.{lock_order}

-- Two movements between the same two accounts, in either direction, lock the same rows in the same
-- order, the smaller id first.
pub lock_order-shared :
    (a b : Uuid) (db : Db)
    → (lock_balances (lock_order a b).0 (lock_order a b).1 db
        ≡ lock_balances (lock_order b a).0 (lock_order b a).1 db)
      × ((lock_order a b).0 ≤ (lock_order a b).1)
lock_order-shared a b db = (ground arith, ground arith)
