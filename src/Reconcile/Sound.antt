-- ===== src/Reconcile/Sound.antt =====
-- What an audit with no violation has established, stated without the audit.
use pstu_backend.Prelude.{
  ℕ, ◌≡◌, refl, arith, Uuid, Option, none, some, List, [], ◌∷◌, ◌==◌, length, i64_add, i64_mul,
  Bool, true, false, inl, inr, Option-cases,
}
use pstu_backend.Core.Error.{ok}
use pstu_backend.Store.Schema.{Db, UserRow, LedgerRow}
use pstu_backend.Store.Statements.{balance_of}
use pstu_backend.Books.{total}
use pstu_backend.Books.Chain.{entries}
use pstu_backend.Reconcile.{
  Violation, Audit, ReconcileReport, start_audit, start_report, audit_row, audit_rows, close_audit,
  audit_users, run_reconciliation, check_row, delta, expect,
}

-- Contract 3: the running balances follow from one another by the signed amounts, in 64-bit words;
-- the first is its own signed amount.
abbrev pub Linked : Option ℕ → List LedgerRow → Type 0
Linked previous [] = Unit {0}
Linked none (r ∷ rows) = (r.running_balance ≡ delta r) × Linked (some r.running_balance) rows
Linked (some before) (r ∷ rows) =
    (r.running_balance ≡ i64_add before (delta r)) × Linked (some r.running_balance) rows

-- The sum of the signed amounts, on a start value.
abbrev pub signed_sum : ℕ → List LedgerRow → ℕ
signed_sum n [] = n
signed_sum n (r ∷ rows) = signed_sum (i64_add n (delta r)) rows

-- Contracts 1 and 3 for a user.
abbrev pub Reconciled : Db → UserRow → Type 0
Reconciled db user =
    (balance_of user.id db ≡ some (signed_sum 0 (entries user.id db.ledger)))
    × Linked none (entries user.id db.ledger)

abbrev pub AllReconciled : Db → List UserRow → Type 0
AllReconciled db [] = Unit {0}
AllReconciled db (user ∷ users) = Reconciled db user × AllReconciled db users

expect-eq-nil :
    (c : Bool) (v : Violation) (errors : List Violation)
    → expect c v errors ≡ []
    → (c ≡ true) × (errors ≡ [])
expect-eq-nil true v errors h = (refl, h)
expect-eq-nil false v [] h = cc
expect-eq-nil false v (x ∷ errors) h = cc

check_row-eq-nil :
    (u : Uuid) (p : Option ℕ) (r : LedgerRow) (rows : List LedgerRow) (errors : List Violation)
    → check_row u p r errors ≡ []
    → Linked (some r.running_balance) rows
    → Linked p (r ∷ rows) × (errors ≡ [])
check_row-eq-nil u none r rows errors h l =
    let e = expect-eq-nil (r.running_balance == delta r) _ errors h in
    ((ground (arith, e.0), l), e.1)
check_row-eq-nil u (some b) r rows errors h l =
    let e = expect-eq-nil (r.running_balance == i64_add b (delta r)) _ errors h in
    ((ground (arith, e.0), l), e.1)

audit_rows-eq-nil :
    (u : Uuid) (rows : List LedgerRow) (a : Audit)
    → (audit_rows u a rows).errors ≡ []
    → Linked a.previous_running rows
      × (a.errors ≡ [])
      × ((audit_rows u a rows).computed_sum ≡ signed_sum a.computed_sum rows)
unfolding audit_rows
audit_rows-eq-nil u [] a h = (tt, h, refl)
audit_rows-eq-nil u (r ∷ rows) a h =
    let (l, e, s) = audit_rows-eq-nil u rows (audit_row u a r) h in
    let c = check_row-eq-nil u a.previous_running r rows a.errors e l in (c.0, c.1, s)

audit_users-eq-nil :
    (db : Db) (users : List UserRow) (report r : ReconcileReport)
    → audit_users db users report ≡ ok r
    → r.errors ≡ []
    → AllReconciled db users × (report.errors ≡ [])
unfolding audit_users
audit_users-eq-nil db [] report r h e = (tt, ground (arith, h, e))
audit_users-eq-nil db (user ∷ users) report r h e = elim (Option-cases (balance_of user.id db)) [
  | inl gone ↦ absurd (ground (arith, h, gone))
  | inr (b, had) ↦
      let a = audit_rows user.id (start_audit report) (entries user.id db.ledger) in
      let rest =
        audit_users-eq-nil db users (close_audit user.id b a report) r (ground (arith, h, had)) e in
      let sum = expect-eq-nil (a.computed_sum == b) _ a.errors rest.1 in
      let rows = audit_rows-eq-nil user.id (entries user.id db.ledger) (start_audit report) sum.1 in
      (((ground (arith, had, sum.0, rows.2), rows.0), rest.0), rows.1)
]

-- If the reconciliation ends with no violation, the balances add up to 10000000 paisa a user in
-- 64-bit arithmetic, each user's balance is the signed sum of the user's ledger rows, and each row's
-- running balance is the one before it plus the row's signed amount, the first row's being its own
-- signed amount.
pub run_reconciliation_sound :
    (db : Db) (r : ReconcileReport)
    → run_reconciliation db ≡ ok r
    → r.errors ≡ []
    → (total db.balances ≡ i64_mul (length db.users) 10000000) × AllReconciled db db.users
unfolding run_reconciliation
run_reconciliation_sound db r h e =
    let start =
      start_report (length db.users) (total db.balances) (i64_mul (length db.users) 10000000) in
    let all = audit_users-eq-nil db db.users start r (ground (arith, h)) e in
    let t = expect-eq-nil (total db.balances == i64_mul (length db.users) 10000000) _ [] all.1 in
    (ground (arith, t.0), all.0)
