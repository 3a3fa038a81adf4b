-- ===== src/Requests/Accepted.antt =====
-- Inversion of the transactions of a request: what a commit shows, and what it has written.
use mathlib.Core.Path.{subst}
use pstu_backend.Prelude.{sym, Uuid, Instant, ◌≡◌, arith, some, not, ◌==◌}
use pstu_backend.Core.Error.{AppError, ok}
use pstu_backend.Store.Schema.{
  Db, MoneyRequestRow, RequestStatus, pending, accepted, rejected, cancelled, ProcessEventRow,
}
use pstu_backend.Store.Events.{log_event_txn}
use pstu_backend.Store.Tx.{Tx, ⊤, >>=-eq-ok, pure, fail_if, ◌>>◌}
use pstu_backend.Books.Unmoved.{Unmoved}
use pstu_backend.Movement.{settle}
use pstu_backend.Movement.Settled.{Settled, settle-Settled}
use pstu_backend.Transfers.Dto.{Fresh}
use pstu_backend.Requests.Dto.{
  AcceptMoneyRequest, is_pending, find_request, resolve_rows, resolve_request, insert_request,
}
use pstu_backend.Requests.Transactions.{
  lock_request, pay_request, close_rejected, close_cancelled, accept_movement, record_request,
}

-- The tables that follow `db₁` once the request is resolved and the event logged.
pub record Resolved (id : Uuid) (status : RequestStatus) (now : Instant) (db₁ db' : Db)
    : Type 0 where
  pub unmoved : Unmoved db₁ db'
  pub transfers : db'.transfers ≡ db₁.transfers
  pub requests : db'.money_requests ≡ resolve_rows id status now db₁.money_requests

pub record Accepted (actor id : Uuid) (payload : AcceptMoneyRequest) (f : Fresh)
    (r : MoneyRequestRow) (db db' : Db) : Type 0 where
  pub found : find_request id db ≡ some r
  pub open_request : r.status ≡ pending
  pub by_debtor : actor ≡ r.debtor_id
  pub paid : Db
  pub settled : Settled (accept_movement r payload f) db paid
  pub resolved : Resolved id accepted f.now paid db'

lock_request-eq-ok :
    (id : Uuid) (db db₁ : Db) {r : MoneyRequestRow}
    → lock_request id db ≡ ok (r, db₁)
    → (db₁ ≡ db) × (find_request id db ≡ some r)
unfolding lock_request
lock_request-eq-ok id db db₁ h = ground arith

-- The three tests and what is left to run.
guarded-eq-ok :
    {A : Type 0} (r : MoneyRequestRow) (actor other : Uuid) (e e' : AppError) (k : Tx A)
    (db db' : Db) {a : A}
    → (fail_if (not (is_pending r.status)) e >> (fail_if (not (actor == other)) e' >> k)) db
      ≡ ok (a, db')
    → (r.status ≡ pending) × (actor ≡ other) × (k db ≡ ok (a, db'))
guarded-eq-ok r actor other e e' k db db' h = ground arith

finish-Resolved :
    (id : Uuid) (status : RequestStatus) (now : Instant) (e : ProcessEventRow) (r : MoneyRequestRow)
    (db₁ db' : Db) {x : MoneyRequestRow}
    → (resolve_request id status now >> (log_event_txn e >> pure r)) db₁ ≡ ok (x, db')
    → (x ≡ r) × Resolved id status now db₁ db'
unfolding resolve_request log_event_txn
finish-Resolved id status now e r db₁ db' h = ground arith

-- A request that was paid was there, was pending and its debtor was the caller; its amount was moved
-- from the debtor to the requester, its row was marked accepted, and nothing else happened to the
-- books, the transfers or the requests.
pub pay_request-Accepted :
    (actor id : Uuid) (payload : AcceptMoneyRequest) (f : Fresh) (db db' : Db) {r : MoneyRequestRow}
    → pay_request actor id payload f db ≡ ok (r, db')
    → Accepted actor id payload f r db db'
unfolding pay_request
pay_request-Accepted actor id payload f db db' {r} h =
    let (r₀, db₀, e₀, h₀) = >>=-eq-ok (lock_request id) _ db h in
    let l = lock_request-eq-ok id db db₀ e₀ in
    let g = guarded-eq-ok r₀ actor r₀.debtor_id _ _ _ db₀ db' h₀ in
    let (u, db₁, e₁, h₁) = >>=-eq-ok (settle (accept_movement r₀ payload f)) _ db₀ g.2 in
    let w = finish-Resolved id accepted f.now _ r₀ db₁ db' h₁ in
    let at_row : Accepted actor id payload f r₀ db db' = record {
      found = l.1;
      open_request = g.0;
      by_debtor = g.1;
      paid = db₁;
      settled =
          subst (λ d. Settled (accept_movement r₀ payload f) d db₁) l.0
            (settle-Settled (accept_movement r₀ payload f) db₀ db₁ e₁);
      resolved = w.1;
    } in
    subst (λ x. Accepted actor id payload f x db db') (sym w.0) at_row

-- A request that was closed with no payment, by the user who may do it.
pub record Closed (status : RequestStatus) (id : Uuid) (now : Instant) (r : MoneyRequestRow)
    (db db' : Db) : Type 0 where
  pub found : find_request id db ≡ some r
  pub open_request : r.status ≡ pending
  pub resolved : Resolved id status now db db'

-- A request that was rejected was there, was pending and its debtor was the caller; its row was
-- marked rejected, and the books, the transfers and the other requests are as they were.
pub close_rejected-Closed :
    (actor id : Uuid) (now : Instant) (db db' : Db) {r : MoneyRequestRow}
    → close_rejected actor id now db ≡ ok (r, db')
    → (actor ≡ r.debtor_id) × Closed rejected id now r db db'
unfolding close_rejected
close_rejected-Closed actor id now db db' {r} h =
    let (r₀, db₀, e₀, h₀) = >>=-eq-ok (lock_request id) _ db h in
    let l = lock_request-eq-ok id db db₀ e₀ in
    let g = guarded-eq-ok r₀ actor r₀.debtor_id _ _ _ db₀ db' h₀ in
    let w = finish-Resolved id rejected now _ r₀ db₀ db' g.2 in
    let at_row : (actor ≡ r₀.debtor_id) × Closed rejected id now r₀ db db' = (
      g.1,
      record {
        found = l.1;
        open_request = g.0;
        resolved = subst (λ d. Resolved id rejected now d db') l.0 w.1;
      },
    ) in
    subst (λ (x : MoneyRequestRow). (actor ≡ x.debtor_id) × Closed rejected id now x db db')
      (sym w.0) at_row

-- A request that was cancelled was there, was pending and its requester was the caller; its row was
-- marked cancelled, and the books, the transfers and the other requests are as they were.
pub close_cancelled-Closed :
    (actor id : Uuid) (now : Instant) (db db' : Db) {r : MoneyRequestRow}
    → close_cancelled actor id now db ≡ ok (r, db')
    → (actor ≡ r.requester_id) × Closed cancelled id now r db db'
unfolding close_cancelled
close_cancelled-Closed actor id now db db' {r} h =
    let (r₀, db₀, e₀, h₀) = >>=-eq-ok (lock_request id) _ db h in
    let l = lock_request-eq-ok id db db₀ e₀ in
    let g = guarded-eq-ok r₀ actor r₀.requester_id _ _ _ db₀ db' h₀ in
    let w = finish-Resolved id cancelled now _ r₀ db₀ db' g.2 in
    let at_row : (actor ≡ r₀.requester_id) × Closed cancelled id now r₀ db db' = (
      g.1,
      record {
        found = l.1;
        open_request = g.0;
        resolved = subst (λ d. Resolved id cancelled now d db') l.0 w.1;
      },
    ) in
    subst (λ (x : MoneyRequestRow). (actor ≡ x.requester_id) × Closed cancelled id now x db db')
      (sym w.0) at_row

pub record_request-Unmoved :
    (r : MoneyRequestRow) (db db' : Db) {u : ⊤} → record_request r db ≡ ok (u, db') → Unmoved db db'
unfolding record_request insert_request log_event_txn
record_request-Unmoved r db db' h = ground arith
