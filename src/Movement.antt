-- ===== src/Movement.antt =====
-- The money movement that features/transfers, features/requests and features/links run inside their
-- transactions, in the same order of statements: lock the two balances, check the funds, write both
-- balances, and append the transfer, two ledger rows and two history rows. The services differ in
-- who pays, in the kinds they record and in their messages: the fields of a `Movement`.
pub mod Settled
pub mod Conserves
pub mod Locks
pub mod Deadlock
pub mod Progress
use Prim.Native.String.{String}
use pstu_backend.Prelude.{
  ℕ, ◌+◌, ◌-◌, Uuid, Instant, Text, Option, none, some, List, [], ◌∷◌, ltb, ◌==◌, if◌then◌else◌,
  length, i64_add,
}
use pstu_backend.Core.Error.{AppError}
use pstu_backend.Store.Schema.{
  Db, BalanceRow, TransferRow, TransferStatus, LedgerRow, LedgerKind, Direction, credit, debit,
  HistoryKind, HistoryDirection, TxHistoryRow,
}
use pstu_backend.Store.Tx.{Tx, ⊤, pure, ok_or_fail, fail_if, ◌>>=◌, ◌>>◌}
use pstu_backend.Store.Statements.{
  lock_balances, update_balance, insert_transfer, insert_ledger, insert_history, history_row,
}

pub record Movement : Type 0 where
  pub payer : Uuid
  pub payee : Uuid
  pub amount : ℕ
  pub note : Text
  pub reference : Text
  pub transfer_id : Uuid
  pub idempotency_key : Uuid
  pub now : Instant
  pub sent_kind : LedgerKind
  pub received_kind : LedgerKind
  pub history_kind : HistoryKind
  pub rows_missing : String
  pub payer_missing : String
  pub payee_missing : String
  pub insufficient : String

-- `let (first_id, second_id) = if a < b { (a, b) } else { (b, a) }`
abbrev pub lock_order : Uuid → Uuid → Uuid × Uuid
lock_order a b = if ltb a b then (a, b) else (b, a)

-- The loop over the locked rows, on the two `Option<i64>` that it fills.
unfoldable pub pick_balances :
    Uuid → Uuid → List BalanceRow → Option ℕ × Option ℕ → Option ℕ × Option ℕ
pick_balances payer payee [] found = found
pick_balances payer payee (r ∷ rows) (p, q) = pick_balances payer payee rows (
    if r.user_id == payer
    then (some r.amount_paisa, q)
    else if r.user_id == payee
    then (p, some r.amount_paisa)
    else (p, q))

-- The balances of payer and payee, read under their locks.
unfoldable pub read_balances : Movement → Tx (ℕ × ℕ)
unfolding lock_balances pick_balances
read_balances m = do
  let order = lock_order m.payer m.payee
  rows ← lock_balances order.0 order.1
  fail_if (ltb (length rows) 2) (AppError.not_found m.rows_missing)
  let found = pick_balances m.payer m.payee rows (none, none)
  payer_bal ← ok_or_fail (AppError.not_found m.payer_missing) found.0
  payee_bal ← ok_or_fail (AppError.not_found m.payee_missing) found.1
  pure (payer_bal, payee_bal)

abbrev pub completed_transfer : Movement → TransferRow
completed_transfer m = record {
  id = m.transfer_id;
  reference = m.reference;
  sender_id = m.payer;
  recipient_id = m.payee;
  amount_paisa = m.amount;
  note = m.note;
  status = TransferStatus.completed;
  idempotency_key = m.idempotency_key;
  created_at = m.now;
}

abbrev pub debit_row : Movement → ℕ → LedgerRow
debit_row m running = record {
  txn_id = m.transfer_id;
  reference = m.reference;
  user_id = m.payer;
  counterparty_id = some m.payee;
  direction = debit;
  amount_paisa = m.amount;
  running_balance = running;
  kind = m.sent_kind;
  idempotency_key = some m.idempotency_key;
  created_at = m.now;
}

abbrev pub credit_row : Movement → ℕ → LedgerRow
credit_row m running = record {
  txn_id = m.transfer_id;
  reference = m.reference;
  user_id = m.payee;
  counterparty_id = some m.payer;
  direction = credit;
  amount_paisa = m.amount;
  running_balance = running;
  kind = m.received_kind;
  idempotency_key = some m.idempotency_key;
  created_at = m.now;
}

abbrev pub sent_row : Movement → ℕ → ℕ → TxHistoryRow
sent_row m after =
    history_row m.payer TransferStatus.completed m.history_kind HistoryDirection.sent m.amount after
      (some m.payee) m.reference m.transfer_id m.note (some m.idempotency_key) m.now

abbrev pub received_row : Movement → ℕ → ℕ → TxHistoryRow
received_row m after =
    history_row m.payee TransferStatus.completed m.history_kind HistoryDirection.received m.amount
      after (some m.payer) m.reference m.transfer_id m.note (some m.idempotency_key) m.now

-- The statements that write, on the two new balances.
unfoldable pub write_movement : Movement → ℕ → ℕ → Tx ⊤
write_movement m new_payer new_payee = do
  update_balance m.payer new_payer m.now
  update_balance m.payee new_payee m.now
  insert_transfer (completed_transfer m)
  insert_ledger (debit_row m new_payer)
  insert_ledger (credit_row m new_payee)
  insert_history (sent_row m new_payer)
  insert_history (received_row m new_payee)

unfoldable pub settle : Movement → Tx ⊤
settle m = do
  bals ← read_balances m
  fail_if (ltb bals.0 m.amount) (AppError.unprocessable m.insufficient)
  write_movement m (bals.0 - m.amount) (i64_add bals.1 m.amount)
