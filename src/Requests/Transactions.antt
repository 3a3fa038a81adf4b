-- ===== src/Requests/Transactions.antt =====
-- The transactions of features/requests/service.rs.
use Prim.Native.String.{String, ◌++◌}
use pstu_backend.Prelude.{Uuid, Instant, not, some, List, [], ◌∷◌, ◌==◌}
use pstu_backend.Core.Error.{AppError}
use pstu_backend.Store.Schema.{
  MoneyRequestRow, RequestStatus, LedgerKind, HistoryKind, ProcessEventRow, EntityType, EventName,
  MetaValue,
}
use pstu_backend.Store.Events.{event_row, log_event_txn}
use pstu_backend.Store.Tx.{Tx, ⊤, pure, select, fail_if, ok_or_fail, ◌>>=◌, ◌>>◌}
use pstu_backend.Movement.{Movement, settle}
use pstu_backend.Transfers.Dto.{Fresh}
use pstu_backend.Requests.Dto.{
  AcceptMoneyRequest, is_pending, status_text, find_request, insert_request, resolve_request,
}

abbrev pub request_event :
    Uuid → Uuid → EventName → String → List (String × MetaValue) → Instant → ProcessEventRow
request_event request_id actor event reason meta now =
    event_row EntityType.request request_id event (some actor) reason meta now

-- The transaction of `create_request`.
unfoldable pub record_request : MoneyRequestRow → Tx ⊤
record_request r = do
  insert_request r
  log_event_txn (
      request_event r.id r.requester_id EventName.created "Money request created"
        (("requester_id", MetaValue.uuid r.requester_id)
          ∷ ("debtor_id", MetaValue.uuid r.debtor_id)
          ∷ ("amount_paisa", MetaValue.number r.amount_paisa)
          ∷ [])
        r.created_at)

-- `SELECT … FOR UPDATE`, or the 404.
unfoldable pub lock_request : Uuid → Tx MoneyRequestRow
lock_request request_id = do
  found ← select (find_request request_id)
  ok_or_fail (AppError.not_found "Money request not found") found

-- The debtor pays the requester.
abbrev pub accept_movement : MoneyRequestRow → AcceptMoneyRequest → Fresh → Movement
accept_movement r payload f = record {
  payer = r.debtor_id;
  payee = r.requester_id;
  amount = r.amount_paisa;
  note = r.note;
  reference = f.reference;
  transfer_id = f.id;
  idempotency_key = payload.idempotency_key;
  now = f.now;
  sent_kind = LedgerKind.request_paid;
  received_kind = LedgerKind.request_paid;
  history_kind = HistoryKind.request;
  rows_missing = "Balances not found";
  payer_missing = "Debtor balance missing";
  payee_missing = "Requester balance missing";
  insufficient = "Insufficient balance to accept request";
}

-- The transaction of `accept_request`, up to the commit; it returns the row that it read.
unfoldable pub pay_request : Uuid → Uuid → AcceptMoneyRequest → Fresh → Tx MoneyRequestRow
unfolding lock_request
pay_request actor_id request_id payload f = do
  r ← lock_request request_id
  fail_if (not (is_pending r.status)) (
      AppError.conflict
        ("Money request cannot be accepted because it is already " ++ status_text r.status))
  fail_if (not (actor_id == r.debtor_id))
      (AppError.forbidden "Only the recipient (debtor) can accept this money request")
  settle (accept_movement r payload f)
  resolve_request request_id RequestStatus.accepted f.now
  log_event_txn (
      request_event request_id actor_id EventName.accepted "Money request accepted and paid"
        (("request_id", MetaValue.uuid request_id)
          ∷ ("transfer_id", MetaValue.uuid f.id)
          ∷ ("reference", MetaValue.text f.reference)
          ∷ ("amount_paisa", MetaValue.number r.amount_paisa)
          ∷ [])
        f.now)
  pure r

-- The transaction of `reject_request`.
unfoldable pub close_rejected : Uuid → Uuid → Instant → Tx MoneyRequestRow
unfolding lock_request
close_rejected actor_id request_id now = do
  r ← lock_request request_id
  fail_if (not (is_pending r.status))
      (AppError.conflict ("Money request is already " ++ status_text r.status))
  fail_if (not (actor_id == r.debtor_id))
      (AppError.forbidden "Only the debtor can reject this request")
  resolve_request request_id RequestStatus.rejected now
  log_event_txn (
      request_event request_id actor_id EventName.rejected "Money request rejected by debtor"
        (("status", MetaValue.word "rejected") ∷ []) now)
  pure r

-- The transaction of `cancel_request`.
unfoldable pub close_cancelled : Uuid → Uuid → Instant → Tx MoneyRequestRow
unfolding lock_request
close_cancelled actor_id request_id now = do
  r ← lock_request request_id
  fail_if (not (is_pending r.status)) (
      AppError.conflict
        ("Money request cannot be cancelled because it is already " ++ status_text r.status))
  fail_if (not (actor_id == r.requester_id))
      (AppError.forbidden "Only the requester can cancel this request")
  resolve_request request_id RequestStatus.cancelled now
  log_event_txn (
      request_event request_id actor_id EventName.cancelled "Money request cancelled by requester"
        (("status", MetaValue.word "cancelled") ∷ []) now)
  pure r
