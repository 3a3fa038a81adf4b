-- ===== src/Requests/Once.antt =====
-- A request is resolved at most once: the three transactions that resolve one exclude one another.
use pstu_backend.Prelude.{Uuid, Instant, ◌≡◌, ◌≢◌, arith, some, List, [], ◌∷◌, ◌==◌, first_row}
use pstu_backend.Core.Error.{ok}
use pstu_backend.Store.Schema.{
  Db, MoneyRequestRow, RequestStatus, pending, accepted, rejected, cancelled,
}
use pstu_backend.Transfers.Dto.{Fresh}
use pstu_backend.Requests.Dto.{AcceptMoneyRequest, find_request, resolve_rows}
use pstu_backend.Requests.Transactions.{pay_request, close_rejected, close_cancelled}
use pstu_backend.Requests.Accepted.{
  Resolved, pay_request-Accepted, close_rejected-Closed, close_cancelled-Closed,
}

first_row-resolve_rows :
    (id : Uuid) (status : RequestStatus) (now : Instant) (rows : List MoneyRequestRow)
    (r : MoneyRequestRow)
    → first_row (λ (x : MoneyRequestRow). x.id == id) (resolve_rows id status now rows) ≡ some r
    → r.status ≡ status
first_row-resolve_rows id status now [] r h = cc
first_row-resolve_rows id status now (x ∷ rows) r h =
    ground (arith, h, first_row-resolve_rows id status now rows r)

-- The three ways to resolve the request `id`.
pub data Resolves (id : Uuid) (db db' : Db) : Type 0 where
  by_payment :
      (actor : Uuid) (payload : AcceptMoneyRequest) (f : Fresh) (r : MoneyRequestRow)
      → pay_request actor id payload f db ≡ ok (r, db')
      → Resolves id db db'
  by_debtor :
      (actor : Uuid) (now : Instant) (r : MoneyRequestRow)
      → close_rejected actor id now db ≡ ok (r, db')
      → Resolves id db db'
  by_requester :
      (actor : Uuid) (now : Instant) (r : MoneyRequestRow)
      → close_cancelled actor id now db ≡ ok (r, db')
      → Resolves id db db'

Resolved-not_pending :
    (id : Uuid) (status : RequestStatus) (now : Instant) (db₁ db' : Db) (r : MoneyRequestRow)
    → Resolved id status now db₁ db'
    → status ≢ pending
    → find_request id db' ≡ some r
    → r.status ≢ pending
Resolved-not_pending id status now db₁ db' r w final found =
    ground
      (arith, w.requests, found, final, first_row-resolve_rows id status now db₁.money_requests r)

Resolves-pending :
    (id : Uuid) (db db' : Db)
    → Resolves id db db'
    → (r : MoneyRequestRow) × (find_request id db ≡ some r) × (r.status ≡ pending)
Resolves-pending id db db' (by_payment actor payload f r h) =
    let a = pay_request-Accepted actor id payload f db db' h in (r, a.found, a.open_request)
Resolves-pending id db db' (by_debtor actor now r h) =
    let a = close_rejected-Closed actor id now db db' h in (r, a.1.found, a.1.open_request)
Resolves-pending id db db' (by_requester actor now r h) =
    let a = close_cancelled-Closed actor id now db db' h in (r, a.1.found, a.1.open_request)

Resolves-final :
    (id : Uuid) (db db' : Db) (r : MoneyRequestRow)
    → Resolves id db db'
    → find_request id db' ≡ some r
    → r.status ≢ pending
Resolves-final id db db' r (by_payment actor payload f r₀ h) found =
    let a = pay_request-Accepted actor id payload f db db' h in
    Resolved-not_pending id accepted f.now a.paid db' r a.resolved (λ e. cc) found
Resolves-final id db db' r (by_debtor actor now r₀ h) found =
    let a = close_rejected-Closed actor id now db db' h in
    Resolved-not_pending id rejected now db db' r a.1.resolved (λ e. cc) found
Resolves-final id db db' r (by_requester actor now r₀ h) found =
    let a = close_cancelled-Closed actor id now db db' h in
    Resolved-not_pending id cancelled now db db' r a.1.resolved (λ e. cc) found

-- After a commit that pays, rejects or cancels a request, no transaction that pays, rejects or
-- cancels it commits in any later state in which the request is as that commit left it.
pub Resolves-once :
    (id : Uuid) (db db' later after : Db)
    → Resolves id db db'
    → find_request id later ≡ find_request id db'
    → ¬ Resolves id later after
Resolves-once id db db' later after first same second =
    let (r, found, open_request) = Resolves-pending id later after second in
    Resolves-final id db db' r first (ground (arith, same, found)) open_request
