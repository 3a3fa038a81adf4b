-- ===== src/Movement/Settled.antt =====
-- What a settled movement has done: inversion of `settle`, statement by statement.
use pstu_backend.Prelude.{
  ℕ, ◌+◌, ◌-◌, ◌≤◌, ◌≡◌, ◌≢◌, refl, inl, inr, true, some, List, [], ◌∷◌, ◌++◌, arith, length, Uuid,
  i64_add, is_nonneg, Option-cases,
}
use pstu_backend.Core.Error.{ok}
use pstu_backend.Store.Schema.{Db, BalanceRow, TransferRow}
use pstu_backend.Store.Tx.{⊤, >>=-eq-ok}
use pstu_backend.Store.Statements.{
  balance_of, find_balance, set_balance, update_balance, insert_transfer, insert_ledger,
  insert_history, transfer_allowed,
}
use pstu_backend.Movement.{
  Movement, read_balances, write_movement, settle, completed_transfer, debit_row, credit_row,
  sent_row, received_row,
}

pub find_balance-user_id :
    (u : Uuid) (rows : List BalanceRow) (r : BalanceRow)
    → find_balance u rows ≡ some r
    → r.user_id ≡ u
find_balance-user_id u [] r e = cc
find_balance-user_id u (x ∷ rows) r e = ground (arith, find_balance-user_id u rows r)

-- The two rows that the lock query returned are those of payer and payee, and it changed nothing.
pub read_balances-eq-ok :
    (m : Movement) (db db' : Db) {bals : ℕ × ℕ}
    → read_balances m db ≡ ok (bals, db')
    → (db' ≡ db)
      × (m.payer ≢ m.payee)
      × (balance_of m.payer db ≡ some bals.0)
      × (balance_of m.payee db ≡ some bals.1)
unfolding read_balances
read_balances-eq-ok m db db' h = elim (Option-cases (find_balance m.payer db.balances)) [
  | inl e ↦ elim (Option-cases (find_balance m.payee db.balances)) [
    | inl e' ↦ ground arith
    | inr (r', e') ↦ ground arith
  ]
  | inr (r, e) ↦ elim (Option-cases (find_balance m.payee db.balances)) [
    | inl e' ↦ ground arith
    | inr (r', e') ↦ ground (
      arith,
      find_balance-user_id m.payer db.balances r e,
      find_balance-user_id m.payee db.balances r' e',
    )
  ]
]

-- The tables after the movement, with the two new balances.
abbrev pub settled : Movement → ℕ → ℕ → Db → Db
settled m new_payer new_payee db = record db {
  balances = set_balance m.payee new_payee m.now (set_balance m.payer new_payer m.now db.balances);
  transfers = db.transfers ++ completed_transfer m ∷ [];
  ledger = (db.ledger ++ debit_row m new_payer ∷ []) ++ credit_row m new_payee ∷ [];
  tx_history =
      (db.tx_history ++ sent_row m new_payer (length db.tx_history + 1) ∷ [])
      ++ received_row m new_payee
          (length (db.tx_history ++ sent_row m new_payer (length db.tx_history + 1) ∷ []) + 1)
        ∷ [];
}

pub transfer_allowed-balances :
    (t : TransferRow) (db : Db) (rows : List BalanceRow)
    → transfer_allowed t (record db { balances = rows }) ≡ transfer_allowed t db
unfolding transfer_allowed
transfer_allowed-balances t db rows = refl

pub write_movement-eq-ok :
    (m : Movement) (new_payer new_payee : ℕ) (db db' : Db) {u : ⊤}
    → write_movement m new_payer new_payee db ≡ ok (u, db')
    → (db' ≡ settled m new_payer new_payee db)
      × (is_nonneg new_payer ≡ true)
      × (is_nonneg new_payee ≡ true)
      × (transfer_allowed (completed_transfer m) db ≡ true)
unfolding write_movement update_balance insert_transfer insert_ledger insert_history
write_movement-eq-ok m p q db db' h = ground (
  arith,
  transfer_allowed-balances (completed_transfer m) db
      (set_balance m.payee q m.now (set_balance m.payer p m.now db.balances)),
)

-- What is known of a movement that was settled: who had what before, and the tables after.
pub record Settled (m : Movement) (db db' : Db) : Type 0 where
  pub payer_bal : ℕ
  pub payee_bal : ℕ
  pub distinct : m.payer ≢ m.payee
  pub payer_had : balance_of m.payer db ≡ some payer_bal
  pub payee_had : balance_of m.payee db ≡ some payee_bal
  pub covered : m.amount ≤ payer_bal
  pub fits : is_nonneg (i64_add payee_bal m.amount) ≡ true
  pub allowed : transfer_allowed (completed_transfer m) db ≡ true
  pub after : db' ≡ settled m (payer_bal - m.amount) (i64_add payee_bal m.amount) db

pub settle-Settled :
    (m : Movement) (db db' : Db) {u : ⊤} → settle m db ≡ ok (u, db') → Settled m db db'
unfolding settle
settle-Settled m db db' h =
    let (bals, db₁, e₁, h₁) = >>=-eq-ok (read_balances m) _ db h in
    let r = read_balances-eq-ok m db db₁ e₁ in
    let c : (m.amount ≤ bals.0)
        × (write_movement m (bals.0 - m.amount) (i64_add bals.1 m.amount) db ≡ ok (tt, db')) =
      ground (arith, r.0, h₁) in
    let w = write_movement-eq-ok m (bals.0 - m.amount) (i64_add bals.1 m.amount) db db' c.1 in
    record {
      payer_bal = bals.0;
      payee_bal = bals.1;
      distinct = r.1;
      payer_had = r.2;
      payee_had = r.3;
      covered = c.0;
      fits = w.2;
      allowed = w.3;
      after = w.0;
    }
