-- ===== src/Transfers/Transactions.antt =====
-- The three transactions of features/transfers/service.rs: a transfer over the cap for one, a
-- transfer over the day's limit, and the payment itself.
use Prim.Native.String.{String}
use pstu_backend.Prelude.{ℕ, some, List, [], ◌∷◌}
use pstu_backend.Core.Error.{AppError}
use pstu_backend.Core.Limits.{per_transfer_cap_paisa, daily_outflow_cap_paisa}
use pstu_backend.Store.Schema.{
  TransferRow, TransferStatus, TxHistoryRow, HistoryKind, HistoryDirection, LedgerKind,
  ProcessEventRow, EntityType, EventName, MetaValue,
}
use pstu_backend.Store.Statements.{balance_of, insert_transfer, insert_history, history_row}
use pstu_backend.Store.Events.{event_row, log_event_txn}
use pstu_backend.Store.Tx.{Tx, ⊤, select, ok_or_fail, ◌>>=◌, ◌>>◌}
use pstu_backend.Movement.{Movement, settle}
use pstu_backend.Transfers.Dto.{Draft, Fresh}

-- The row of a transfer that moves no money.
abbrev pub unpaid_transfer : Draft → Fresh → TransferStatus → TransferRow
unpaid_transfer d f status = record {
  id = f.id;
  reference = f.reference;
  sender_id = d.sender_id;
  recipient_id = d.recipient_id;
  amount_paisa = d.amount;
  note = d.note;
  status = status;
  idempotency_key = d.idempotency_key;
  created_at = f.now;
}

abbrev pub unpaid_history : Draft → Fresh → TransferStatus → ℕ → ℕ → TxHistoryRow
unpaid_history d f status sender_bal =
    history_row d.sender_id status HistoryKind.transfer HistoryDirection.sent d.amount sender_bal
      (some d.recipient_id) f.reference f.id d.note (some d.idempotency_key) f.now

abbrev pub transfer_event :
    Draft → Fresh → EventName → String → List (String × MetaValue) → ProcessEventRow
transfer_event d f event reason meta =
    event_row EntityType.transfer f.id event (some d.sender_id) reason meta f.now

-- Step 6, `'rejected'`: the transfer and its history are kept, no balance changes.
unfoldable pub record_rejected : Draft → Fresh → Tx ⊤
record_rejected d f = do
  insert_transfer (unpaid_transfer d f TransferStatus.rejected)
  found ← select (balance_of d.sender_id)
  sender_bal ← ok_or_fail AppError.database found
  insert_history (unpaid_history d f TransferStatus.rejected sender_bal)
  log_event_txn (
      transfer_event d f EventName.rejected "Exceeded single transfer velocity cap" (
        ("amount_paisa", MetaValue.number d.amount)
        ∷ ("cap", MetaValue.number per_transfer_cap_paisa)
        ∷ []))

-- Step 7, `'flagged'`: held for review.
unfoldable pub record_flagged : Draft → Fresh → ℕ → Tx ⊤
record_flagged d f new_daily_total = do
  insert_transfer (unpaid_transfer d f TransferStatus.flagged)
  found ← select (balance_of d.sender_id)
  sender_bal ← ok_or_fail AppError.database found
  insert_history (unpaid_history d f TransferStatus.flagged sender_bal)
  log_event_txn (
      transfer_event d f EventName.flagged
        "Exceeded daily cumulative outflow limit (held for review)"
        (("daily_total", MetaValue.number new_daily_total)
          ∷ ("cap", MetaValue.number daily_outflow_cap_paisa)
          ∷ []))

abbrev pub transfer_movement : Draft → Fresh → Movement
transfer_movement d f = record {
  payer = d.sender_id;
  payee = d.recipient_id;
  amount = d.amount;
  note = d.note;
  reference = f.reference;
  transfer_id = f.id;
  idempotency_key = d.idempotency_key;
  now = f.now;
  sent_kind = LedgerKind.transfer_sent;
  received_kind = LedgerKind.transfer_received;
  history_kind = HistoryKind.transfer;
  rows_missing = "One or both user balances not found";
  payer_missing = "Sender balance missing";
  payee_missing = "Recipient balance missing";
  insufficient = "Insufficient balance";
}

-- Steps 8 to 13: the money moves, and the event is logged.
unfoldable pub pay_transfer : Draft → Fresh → Tx ⊤
pay_transfer d f = do
  settle (transfer_movement d f)
  log_event_txn (
      transfer_event d f EventName.completed "Transfer successfully executed" (
        ("reference", MetaValue.text f.reference)
        ∷ ("sender_id", MetaValue.uuid d.sender_id)
        ∷ ("recipient_id", MetaValue.uuid d.recipient_id)
        ∷ ("amount_paisa", MetaValue.number d.amount)
        ∷ ("idempotency_key", MetaValue.uuid d.idempotency_key)
        ∷ []))
