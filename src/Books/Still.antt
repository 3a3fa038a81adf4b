-- ===== src/Books/Still.antt =====
-- Writes that move no money.
use pstu_backend.Prelude.{◌≡◌, refl, arith}
use pstu_backend.Store.Schema.{Db}
use pstu_backend.Books.Unmoved.{Unmoved}

-- The balances and the ledger are as they were.
pub record Still (db db' : Db) : Type 0 where
  pub balances : db'.balances ≡ db.balances
  pub ledger : db'.ledger ≡ db.ledger

pub Still-refl : (db : Db) → Still db db
Still-refl db = record { balances = refl; ledger = refl }

pub Unmoved-Still : (db db' : Db) → Unmoved db db' → Still db db'
Unmoved-Still db db' h = record { balances = h.balances; ledger = h.ledger }

-- What was still stays so under writes that leave the books alone.
pub Still-Unmoved : (db₀ db db' : Db) → Unmoved db db' → Still db₀ db → Still db₀ db'
Still-Unmoved db₀ db db' h k = ground (arith, h.balances, h.ledger, k.balances, k.ledger)
