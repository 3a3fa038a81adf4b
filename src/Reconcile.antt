-- ===== src/Reconcile.antt =====
-- features/reconcile/service.rs: the audit of the books, in 64-bit arithmetic as the source runs it.
-- A violation carries the numbers of the source's message, without the row's id.
-- It reads one state of the tables; the source's queries are not in one transaction.
pub mod Clean
pub mod Sound
use pstu_backend.Prelude.{
  ℕ, suc, ◌+◌, Uuid, Bool, Option, none, some, List, [], ◌∷◌, ◌++◌, ltb, ◌==◌, if◌then◌else◌,
  length, i64_add, i64_neg, i64_mul, i64_limit,
}
use pstu_backend.Core.Error.{AppError, Result, ok, err}
use pstu_backend.Store.Schema.{Db, UserRow, LedgerRow, Direction, credit, debit}
use pstu_backend.Store.Statements.{balance_of}
use pstu_backend.Books.{total}
use pstu_backend.Books.Chain.{entries}

pub data Violation : Type 0 where
  total_mismatch : ℕ → ℕ → Violation
  chain_error initial_row : Uuid → ℕ → ℕ → Violation
  sum_mismatch : Uuid → ℕ → ℕ → Violation

pub record ReconcileReport : Type 0 where
  pub users_count : ℕ
  pub total_system_balance_paisa : ℕ
  pub expected_system_balance_paisa : ℕ
  pub users_reconciled : ℕ
  pub ledger_entries_verified : ℕ
  pub errors : List Violation

-- The variables of the loop over a user's rows.
pub record Audit : Type 0 where
  pub computed_sum : ℕ
  pub previous_running : Option ℕ
  pub verified : ℕ
  pub errors : List Violation

-- `amount * (direction as i64)`
abbrev pub signed : Direction → ℕ → ℕ
signed credit amount = amount
signed debit amount = i64_neg amount

abbrev pub delta : LedgerRow → ℕ
delta r = signed r.direction r.amount_paisa

abbrev pub expect : Bool → Violation → List Violation → List Violation
expect holds v errors = if holds then errors else errors ++ v ∷ []

-- Contract 3, on one row.
abbrev pub check_row : Uuid → Option ℕ → LedgerRow → List Violation → List Violation
check_row u none r errors =
    expect (r.running_balance == delta r) (initial_row u r.running_balance (delta r)) errors
check_row u (some prev) r errors =
    expect (r.running_balance == i64_add prev (delta r))
      (chain_error u (i64_add prev (delta r)) r.running_balance) errors

unfoldable pub audit_row : Uuid → Audit → LedgerRow → Audit
audit_row u a r = record {
  computed_sum = i64_add a.computed_sum (delta r);
  previous_running = some r.running_balance;
  verified = a.verified + 1;
  errors = check_row u a.previous_running r a.errors;
}

unfoldable pub audit_rows : Uuid → Audit → List LedgerRow → Audit
unfolding audit_row
audit_rows u a [] = a
audit_rows u a (r ∷ rows) = audit_rows u (audit_row u a r) rows

-- Contract 1, at the end of the loop.
unfoldable pub close_audit : Uuid → ℕ → Audit → ReconcileReport → ReconcileReport
close_audit u current_balance a report = record report {
  ledger_entries_verified = a.verified;
  users_reconciled =
      if a.computed_sum == current_balance
      then report.users_reconciled + 1
      else report.users_reconciled;
  errors =
      expect (a.computed_sum == current_balance) (sum_mismatch u a.computed_sum current_balance)
        a.errors;
}

abbrev pub start_audit : ReconcileReport → Audit
start_audit report = record {
  computed_sum = 0;
  previous_running = none;
  verified = report.ledger_entries_verified;
  errors = report.errors;
}

-- One user: a user with no balance row ends the run with a database error (`fetch_one`).
unfoldable pub audit_user : Db → UserRow → ReconcileReport → Result ReconcileReport
unfolding audit_rows close_audit
audit_user db user report = elim (balance_of user.id db) [
  | none ↦ err AppError.database
  | some current_balance ↦ ok (
      close_audit user.id current_balance
        (audit_rows user.id (start_audit report) (entries user.id db.ledger)) report)
]

unfoldable pub audit_users : Db → List UserRow → ReconcileReport → Result ReconcileReport
unfolding audit_user
audit_users db [] report = ok report
audit_users db (user ∷ users) report = elim (audit_user db user report) [
  | err e ↦ err e
  | ok report' ↦ audit_users db users report'
]

abbrev pub start_report : ℕ → ℕ → ℕ → ReconcileReport
start_report users total expected = record {
  users_count = users;
  total_system_balance_paisa = total;
  expected_system_balance_paisa = expected;
  users_reconciled = 0;
  ledger_entries_verified = 0;
  errors = expect (total == expected) (total_mismatch expected total) [];
}

-- `run_reconciliation`. The cast of the sum to BIGINT fails on a sum out of range.
unfoldable pub run_reconciliation : Db → Result ReconcileReport
unfolding audit_users
run_reconciliation db =
    if ltb (total db.balances) i64_limit
    then audit_users db db.users
        (start_report (length db.users) (total db.balances) (i64_mul (length db.users) 10000000))
    else err AppError.database
