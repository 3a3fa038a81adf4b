-- ===== src/Books/Chain.antt =====
-- The ledger rows of one user, as a chain of running balances.
use pstu_backend.Prelude.{
  ℕ, ◌+◌, ◌<◌, ◌≡◌, List, [], ◌∷◌, ◌++◌, arith, Uuid, ◌==◌, where_rows, i64_limit,
}
use pstu_backend.Store.Schema.{LedgerRow, Direction, credit, debit}

-- `SELECT … FROM ledger WHERE user_id = $1 ORDER BY id ASC`
abbrev pub entries : Uuid → List LedgerRow → List LedgerRow
entries u = where_rows λ r. r.user_id == u

abbrev pub Moves : Direction → ℕ → ℕ → ℕ → Type 0
Moves credit before amount after = after ≡ before + amount
Moves debit before amount after = after + amount ≡ before

-- One row takes the balance from `before` to its running balance.
abbrev pub Entry : ℕ → LedgerRow → Type 0
Entry before r =
    (0 < r.amount_paisa)
    × (r.running_balance < i64_limit)
    × Moves r.direction before r.amount_paisa r.running_balance

-- The rows take the balance from the first number to the last, each from where the one before left it.
abbrev pub Chain : ℕ → List LedgerRow → ℕ → Type 0
Chain before [] after = before ≡ after
Chain before (r ∷ rows) after = Entry before r × Chain r.running_balance rows after

pub Chain-append :
    (before middle : ℕ) (rows : List LedgerRow) (r : LedgerRow)
    → Chain before rows middle
    → Entry middle r
    → Chain before (rows ++ r ∷ []) r.running_balance
Chain-append before middle [] r c e = ground (arith, c, e)
Chain-append before middle (x ∷ rows) r c e =
    (c.0, Chain-append x.running_balance middle rows r c.1 e)
