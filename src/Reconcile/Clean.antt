-- ===== src/Reconcile/Clean.antt =====
-- The audit passes on books that are in order.
use mathlib.Core.Path.{subst}
use pstu_backend.Prelude.{
  ℕ, ◌+◌, ◌*◌, ◌<◌, ◌≡◌, ◌≢◌, refl, sym, ap, ◌∙◌, arith, Uuid, Option, none, some, List, [], ◌∷◌,
  map, length, inl, inr, Option-cases, i64_add, i64_mul, i64_limit,
}
use pstu_backend.Core.Error.{ok}
use pstu_backend.Core.Limits.{seed_balance_paisa}
use pstu_backend.Store.Schema.{Db, UserRow, BalanceRow, LedgerRow, Direction, credit, debit}
use pstu_backend.Store.Statements.{balance_of}
use pstu_backend.Books.{amount_in, total, owners}
use pstu_backend.Books.Chain.{entries, Moves, Chain}
use pstu_backend.Books.Invariant.{Books}
use pstu_backend.Reconcile.{
  Violation, Audit, ReconcileReport, start_audit, start_report, audit_row, audit_rows, close_audit,
  audit_users, run_reconciliation, check_row, delta, signed,
}

-- A row of a chain passes, after another row or as the first.
entry-checked :
    (d : Direction) (before amount after : ℕ)
    → (0 < amount) × (after < i64_limit) × Moves d before amount after
    → before < i64_limit
    → after ≡ i64_add before (signed d amount)
entry-checked credit before amount after e h = omega (arith, e.0, e.1, e.2)
entry-checked debit before amount after e h = omega (arith, e.0, e.1, e.2)

-- What the loop starts from before the rows that lead on from `before`.
abbrev StartsAt : ℕ → Option ℕ → Type 0
StartsAt before none = before ≡ 0
StartsAt before (some running) = running ≡ before

check_row-Entry :
    (u : Uuid) (p : Option ℕ) (d : Direction) (before : ℕ) (r : LedgerRow) (errors : List Violation)
    → r.direction ≡ d
    → (0 < r.amount_paisa)
      × (r.running_balance < i64_limit)
      × Moves d before r.amount_paisa r.running_balance
    → before < i64_limit
    → StartsAt before p
    → check_row u p r errors ≡ errors
check_row-Entry u none credit before r errors k e h p = ground (arith, k, e.0, e.1, e.2, p)
check_row-Entry u none debit before r errors k e h p = absurd (omega (arith, e.0, e.2, p))
check_row-Entry u (some x) credit before r errors k e h p =
    ground (arith, k, p, entry-checked credit before r.amount_paisa r.running_balance e h)
check_row-Entry u (some x) debit before r errors k e h p =
    ground (arith, k, p, entry-checked debit before r.amount_paisa r.running_balance e h)

audit_rows-Chain :
    (u : Uuid) (rows : List LedgerRow) (a : Audit) (before after : ℕ)
    → Chain before rows after
    → before < i64_limit
    → a.computed_sum ≡ before
    → StartsAt before a.previous_running
    → ((audit_rows u a rows).computed_sum ≡ after) × ((audit_rows u a rows).errors ≡ a.errors)
unfolding audit_rows
audit_rows-Chain u [] a before after c h s p = (s ∙ c, refl)
audit_rows-Chain u (r ∷ rows) a before after c h s p =
    let rest =
      audit_rows-Chain u rows (audit_row u a r) r.running_balance after c.1 c.0.1
        (ap (λ (n : ℕ). i64_add n (delta r)) s
          ∙ sym (entry-checked r.direction before r.amount_paisa r.running_balance c.0 h))
        refl in
    (
      rest.0,
      rest.1 ∙ check_row-Entry u a.previous_running r.direction before r a.errors refl c.0 h p,
    )

-- Every user of the list passes, when the user's rows lead to the balance.
abbrev IsChained : Db → List UserRow → Type 0
IsChained db [] = Unit {0}
IsChained db (user ∷ users) =
    ((b : ℕ) × (balance_of user.id db ≡ some b) × Chain 0 (entries user.id db.ledger) b)
    × IsChained db users

audit_users-IsChained :
    (db : Db) (users : List UserRow) (report : ReconcileReport)
    → IsChained db users
    → (r : ReconcileReport) × (audit_users db users report ≡ ok r)
      × (r.errors ≡ report.errors)
      × (r.users_reconciled ≡ report.users_reconciled + length users)
unfolding audit_users
audit_users-IsChained db [] report c = (report, refl, refl, omega arith)
audit_users-IsChained db (user ∷ users) report ((b, had, chain), c) =
    let a = audit_rows user.id (start_audit report) (entries user.id db.ledger) in
    let pass =
      audit_rows-Chain user.id (entries user.id db.ledger) (start_audit report) 0 b chain
        (omega arith) refl refl in
    let closed = close_audit user.id b a report in
    let (r, e, errs, n) = audit_users-IsChained db users closed c in
    (r, ground (arith, had, e), ground (arith, pass.0, pass.1, errs), ground (arith, pass.0, n))

-- Every id of the list has a balance.
abbrev HasBalances : List BalanceRow → List Uuid → Type 0
HasBalances rows [] = Unit {0}
HasBalances rows (u ∷ us) = (amount_in u rows ≢ none) × HasBalances rows us

HasBalances-cons :
    (r : BalanceRow) (rows : List BalanceRow) (us : List Uuid)
    → HasBalances rows us
    → HasBalances (r ∷ rows) us
HasBalances-cons r rows [] h = tt
HasBalances-cons r rows (u ∷ us) h = (λ e. h.0 (ground (arith, e)), HasBalances-cons r rows us h.1)

owners-HasBalances : (rows : List BalanceRow) → HasBalances rows (owners rows)
owners-HasBalances [] = tt
owners-HasBalances (r ∷ rows) =
    (λ e. ground (arith, e), HasBalances-cons r rows (owners rows) (owners-HasBalances rows))

Books-IsChained :
    (db : Db) (users : List UserRow)
    → Books db
    → HasBalances db.balances (map (λ (r : UserRow). r.id) users)
    → IsChained db users
Books-IsChained db [] b h = tt
Books-IsChained db (user ∷ users) b h = elim (Option-cases (balance_of user.id db)) [
  | inl gone ↦ absurd (h.0 gone)
  | inr (x, had) ↦ ((x, had, b.accounts.chains user.id x had), Books-IsChained db users b h.1)
]

-- Over books in order, whose total fits a BIGINT, the audit runs to its end, counts every user as
-- reconciled and reports no violation.
pub run_reconciliation_clean :
    (db : Db)
    → Books db
    → length db.users * seed_balance_paisa < i64_limit
    → (r : ReconcileReport) × (run_reconciliation db ≡ ok r)
      × (r.errors ≡ [])
      × (r.users_reconciled ≡ length db.users)
unfolding run_reconciliation
run_reconciliation_clean db b fits =
    let start =
      start_report (length db.users) (total db.balances) (i64_mul (length db.users) 10000000) in
    let chained =
      Books-IsChained db db.users b
        (subst (HasBalances db.balances) b.accounts.owned (owners-HasBalances db.balances)) in
    let (r, e, errs, n) = audit_users-IsChained db db.users start chained in
    (r, ground (arith, b.funded, e), ground (arith, b.funded, errs), omega (arith, n))
