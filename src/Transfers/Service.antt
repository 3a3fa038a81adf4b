-- ===== src/Transfers/Service.antt =====
-- features/transfers/service.rs: `process_transfer`.
use pstu_backend.Prelude.{
  ℕ, Uuid, Bool, true, false, ◌&&◌, Option, none, some, [], ltb, ◌==◌, if◌then◌else◌, first_row,
  unwrap_or,
}
use pstu_backend.Core.Error.{AppError, Result, ok, err}
use pstu_backend.Core.Limits.{per_transfer_cap_paisa, daily_outflow_cap_paisa}
use pstu_backend.Core.Money.{parse_positive_from_str}
use pstu_backend.Core.Text.{trim, to_text}
use pstu_backend.Core.Services.{Services, Key}
use pstu_backend.Core.App.{
  Action, pure, raise, raise_if, lift, query, transaction, update_cache, ◌>>=◌, ◌>>◌,
}
use pstu_backend.Core.Pin.{count_up, enforce_user_pin}
use pstu_backend.Store.Schema.{Db, TransferRow, TransferStatus}
use pstu_backend.Users.{resolve_recipient_user}
use pstu_backend.Transfers.Dto.{CreateTransferRequest, TransferResponse, Fresh, Draft, money_result}
use pstu_backend.Transfers.Transactions.{record_rejected, record_flagged, pay_transfer}

abbrev pub find_transfer_by_key : Uuid → Db → Option TransferRow
find_transfer_by_key key db = first_row (λ (r : TransferRow). r.idempotency_key == key) db.transfers

abbrev pub stored_response : TransferRow → TransferResponse
stored_response r = record {
  id = r.id;
  reference = r.reference;
  sender_id = r.sender_id;
  recipient_id = r.recipient_id;
  amount_paisa = to_text r.amount_paisa;
  note = r.note;
  status = r.status;
  created_at = r.created_at;
}

abbrev pub new_response : Draft → Fresh → TransferStatus → TransferResponse
new_response d f status = record {
  id = f.id;
  reference = f.reference;
  sender_id = d.sender_id;
  recipient_id = d.recipient_id;
  amount_paisa = to_text d.amount;
  note = d.note;
  status = status;
  created_at = f.answered_at;
}

-- Step 5: a transfer with the key is there already. The second part says that this is a replay.
unfoldable pub replay : Draft → TransferRow → Result (TransferResponse × Bool)
replay d r =
    if r.sender_id == d.sender_id && r.recipient_id == d.recipient_id && r.amount_paisa == d.amount
    then ok (stored_response r, true)
    else err (AppError.conflict "Idempotency key was previously used with different parameters")

module _ (S : Services) where
  open S use {Cache, expire}

  -- Step 6
  unfoldable pub reject_transfer : Draft → Fresh → Action Cache (TransferResponse × Bool)
  reject_transfer d f = do
    transaction (record_rejected d f)
    raise (AppError.unprocessable "Amount exceeds maximum per-transfer cap of 5000000 paisa")

  -- Step 7, over the limit
  unfoldable pub flag_transfer : Draft → Fresh → ℕ → Action Cache (TransferResponse × Bool)
  flag_transfer d f total = do
    transaction (record_flagged d f total)
    pure (new_response d f TransferStatus.flagged, false)

  -- Steps 8 to 14
  unfoldable pub execute_transfer : Draft → Fresh → Action Cache (TransferResponse × Bool)
  execute_transfer d f = do
    transaction (pay_transfer d f)
    pure (new_response d f TransferStatus.completed, false)

  -- Step 7: the counter of the day goes up before the money moves.
  unfoldable pub charge_daily_outflow : Draft → Fresh → Action Cache ℕ
  charge_daily_outflow d f = do
    new_daily_total ← count_up S (Key.daily_outflow d.sender_id f.today) d.amount 0
    update_cache (expire (Key.daily_outflow d.sender_id f.today) 86400)
    pure new_daily_total

  -- The test of step 7
  unfoldable pub pay_or_flag : Draft → Fresh → ℕ → Action Cache (TransferResponse × Bool)
  unfolding flag_transfer execute_transfer
  pay_or_flag d f total =
      if ltb daily_outflow_cap_paisa total then flag_transfer d f total else execute_transfer d f

  -- Steps 6 to 14
  unfoldable pub new_transfer : Draft → Fresh → Action Cache (TransferResponse × Bool)
  unfolding reject_transfer charge_daily_outflow pay_or_flag
  new_transfer d f =
      if ltb per_transfer_cap_paisa d.amount
      then reject_transfer d f
      else charge_daily_outflow d f >>= pay_or_flag d f

  -- Step 5 and on
  unfoldable pub transfer_once : Draft → Fresh → Action Cache (TransferResponse × Bool)
  unfolding replay new_transfer
  transfer_once d f = do
    existing_row ← query (find_transfer_by_key d.idempotency_key)
    elim existing_row [ some r ↦ lift (replay d r) | none ↦ new_transfer d f ]

  -- Steps 2 to 4
  unfoldable pub draft_transfer : Uuid → CreateTransferRequest → Action Cache Draft
  draft_transfer sender_id req = do
    amount ← lift (money_result (parse_positive_from_str S.is_digit req.amount_paisa))
    resolved ← query (resolve_recipient_user S req.recipient)
    recipient_id ← lift resolved
    raise_if (sender_id == recipient_id) (AppError.bad_request "Self transfers are not permitted")
    pure (record {
      sender_id = sender_id;
      recipient_id = recipient_id;
      amount = amount;
      note = trim (unwrap_or [] req.note);
      idempotency_key = req.idempotency_key;
    })

  -- `process_transfer`
  unfoldable pub process_transfer :
      Uuid → CreateTransferRequest → Fresh → Action Cache (TransferResponse × Bool)
  unfolding draft_transfer transfer_once
  process_transfer sender_id req f = do
    enforce_user_pin S sender_id req.pin f.now
    d ← draft_transfer sender_id req
    transfer_once d f
