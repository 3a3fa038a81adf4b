-- ===== src/Scenarios/Requests.antt =====
-- The theorems on money requests, where Bob asks Alice for 500 paisa.
use pstu_backend.Prelude.{◌≡◌, refl, none, [], ◌∷◌}
use pstu_backend.Core.Error.{ok}
use pstu_backend.Core.Text.{codes}
use pstu_backend.Store.Schema.{Db, MoneyRequestRow, pending, rejected}
use pstu_backend.Store.Statements.{
  transfer_allowed, update_balance, insert_transfer, insert_ledger, ledger_allowed, insert_history,
  history_allowed,
}
use pstu_backend.Store.Events.{log_event_txn}
use pstu_backend.Movement.{settle, read_balances, write_movement}
use pstu_backend.Requests.Dto.{AcceptMoneyRequest, resolve_request}
use pstu_backend.Requests.Transactions.{pay_request, close_rejected, close_cancelled}
use pstu_backend.Requests.Accepted.{Accepted, Closed, pay_request-Accepted, close_rejected-Closed}
use pstu_backend.Requests.Once.{Resolves, by_payment, Resolves-once}
use pstu_backend.Scenarios.World.{alice, bob, opened, committed, first_transfer}

abbrev asked_row : MoneyRequestRow
asked_row = record {
  id = 50;
  requester_id = bob;
  debtor_id = alice;
  amount_paisa = 500;
  note = codes "tickets";
  status = pending;
  created_at = 12;
  resolved_at = none;
}

abbrev asked : Db
asked = record opened.db { money_requests = asked_row ∷ [] }

abbrev acceptance : AcceptMoneyRequest
acceptance = record { pin = codes "1234"; idempotency_key = 8 }

unfoldable settled : Db
unfolding opened pay_request settle read_balances write_movement update_balance insert_transfer
    transfer_allowed insert_ledger ledger_allowed insert_history history_allowed log_event_txn
    resolve_request
settled = committed (pay_request alice 50 acceptance first_transfer asked)

request_paid : pay_request alice 50 acceptance first_transfer asked ≡ ok (asked_row, settled)
unfolding settled
request_paid = refl

pay_request-Accepted_example : Accepted alice 50 acceptance first_transfer asked_row asked settled
pay_request-Accepted_example =
    pay_request-Accepted alice 50 acceptance first_transfer asked settled request_paid

unfoldable refused : Db
unfolding opened close_rejected log_event_txn resolve_request
refused = committed (close_rejected alice 50 15 asked)

request_rejected : close_rejected alice 50 15 asked ≡ ok (asked_row, refused)
unfolding refused
request_rejected = refl

close_rejected-Closed_example : (alice ≡ alice) × Closed rejected 50 15 asked_row asked refused
close_rejected-Closed_example = close_rejected-Closed alice 50 15 asked refused request_rejected

unfoldable withdrawn : Db
unfolding opened close_cancelled log_event_txn resolve_request
withdrawn = committed (close_cancelled bob 50 15 asked)

request_cancelled : close_cancelled bob 50 15 asked ≡ ok (asked_row, withdrawn)
unfolding withdrawn
request_cancelled = refl

-- Once Alice has paid, no second resolution commits.
Resolves-once_example : ¬ Resolves 50 settled withdrawn
Resolves-once_example =
    Resolves-once 50 asked settled settled withdrawn
      (by_payment alice acceptance first_transfer asked_row request_paid) refl
