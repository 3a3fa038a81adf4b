-- ===== src/Requests/Books.antt =====
-- Money requests keep the books.
use pstu_backend.Prelude.{Uuid, Instant, arith, some}
use pstu_backend.Core.Error.{ok}
use pstu_backend.Core.Services.{Services}
use pstu_backend.Core.App.{transaction, pure, ◌>>=◌}
use pstu_backend.Core.App.Keeps.{Keeps, >>=-Keeps, answer-Keeps}
use pstu_backend.Core.Pin.{enforce_user_pin}
use pstu_backend.Core.Pin.Keeps.{enforce_user_pin-Keeps}
use pstu_backend.Store.Schema.{Db, MoneyRequestRow, RequestStatus}
use pstu_backend.Books.Invariant.{Books}
use pstu_backend.Books.Unmoved.{Unmoved, Unmoved-Books, log_event-Unmoved}
use pstu_backend.Movement.Conserves.{Settled-Books}
use pstu_backend.Transfers.Dto.{Fresh}
use pstu_backend.Requests.Dto.{CreateMoneyRequest, AcceptMoneyRequest, request_dto, new_request_dto}
use pstu_backend.Requests.Transactions.{
  record_request, pay_request, close_rejected, close_cancelled, accept_movement,
}
use pstu_backend.Requests.Service.{
  accepted_response, draft_request, create_request, accept_request, reject_request, cancel_request,
}
use pstu_backend.Requests.Accepted.{
  Accepted, pay_request-Accepted, close_rejected-Closed, close_cancelled-Closed,
  record_request-Unmoved,
}

Accepted-Books :
    (actor id : Uuid) (payload : AcceptMoneyRequest) (f : Fresh) (r : MoneyRequestRow) (db db' : Db)
    → Books db
    → Accepted actor id payload f r db db'
    → Books db'
Accepted-Books actor id payload f r db db' b a =
    Unmoved-Books a.paid db' a.resolved.unmoved
      (Settled-Books (accept_movement r payload f) db a.paid a.settled b)

-- Any property that writes outside the books keep is kept by the handlers that move no money.
module _ (S : Services) (P : Db → Type 0)
    (keep : (db db' : Db) → Unmoved db db' → P db → P db') where
  draft_request-Keeps :
      (u : Uuid) (req : CreateMoneyRequest) (f : Fresh) → Keeps P (draft_request S u req f)
  unfolding draft_request
  draft_request-Keeps u req f s b = ground (arith, b)

  pub create_request-Keeps :
      (u : Uuid) (req : CreateMoneyRequest) (f : Fresh) → Keeps P (create_request S u req f)
  unfolding create_request
  create_request-Keeps u req f =
      >>=-Keeps P (draft_request S u req f)
        (λ r. transaction (record_request r) >>= λ _. pure (new_request_dto r f.answered_at))
        (draft_request-Keeps u req f)
        (λ r.
          answer-Keeps P (record_request r) (λ _. ok (new_request_dto r f.answered_at))
            (λ db b _ db' e. keep db db' (record_request-Unmoved r db db' e) b))

  pub reject_request-Keeps :
      (actor id : Uuid) (now : Instant) → Keeps P (reject_request S actor id now)
  unfolding reject_request
  reject_request-Keeps actor id now =
      answer-Keeps P (close_rejected actor id now)
        (λ r. ok (request_dto r RequestStatus.rejected (some now)))
        (λ db b r db' e.
          keep db db' (close_rejected-Closed actor id now db db' e).1.resolved.unmoved b)

  pub cancel_request-Keeps :
      (actor id : Uuid) (now : Instant) → Keeps P (cancel_request S actor id now)
  unfolding cancel_request
  cancel_request-Keeps actor id now =
      answer-Keeps P (close_cancelled actor id now)
        (λ r. ok (request_dto r RequestStatus.cancelled (some now)))
        (λ db b r db' e.
          keep db db' (close_cancelled-Closed actor id now db db' e).1.resolved.unmoved b)

module _ (S : Services) where
  pub accept_request-Books :
      (actor id : Uuid) (payload : AcceptMoneyRequest) (f : Fresh)
      → Keeps Books (accept_request S actor id payload f)
  unfolding accept_request
  accept_request-Books actor id payload f =
      >>=-Keeps Books (enforce_user_pin S actor payload.pin f.now)
        (λ _. transaction (pay_request actor id payload f) >>= λ r. pure (accepted_response r f))
        (enforce_user_pin-Keeps S Books (λ e db b. Unmoved-Books db _ (log_event-Unmoved e db) b)
          actor payload.pin f.now)
        (λ _.
          answer-Keeps Books (pay_request actor id payload f) (λ r. ok (accepted_response r f))
            (λ db b r db' e.
              Accepted-Books actor id payload f r db db' b
                (pay_request-Accepted actor id payload f db db' e)))
