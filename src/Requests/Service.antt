-- ===== src/Requests/Service.antt =====
-- features/requests/service.rs: the handlers that change a money request.
use pstu_backend.Prelude.{Uuid, Instant, none, some, [], ◌==◌, unwrap_or}
use pstu_backend.Core.Error.{AppError}
use pstu_backend.Core.Money.{parse_positive_from_str}
use pstu_backend.Core.Text.{trim, to_text}
use pstu_backend.Core.Services.{Services}
use pstu_backend.Core.App.{Action, pure, raise_if, lift, query, transaction, ◌>>=◌, ◌>>◌}
use pstu_backend.Core.Pin.{enforce_user_pin}
use pstu_backend.Store.Schema.{MoneyRequestRow, RequestStatus, TransferStatus}
use pstu_backend.Users.{resolve_recipient_user}
use pstu_backend.Transfers.Dto.{Fresh, TransferResponse, money_result}
use pstu_backend.Requests.Dto.{
  CreateMoneyRequest, AcceptMoneyRequest, MoneyRequestDto, AcceptRequestResponse, request_dto,
  new_request_dto,
}
use pstu_backend.Requests.Transactions.{
  record_request, pay_request, close_rejected, close_cancelled,
}

-- The transfer in the response of an accepted request.
abbrev pub paid_transfer : MoneyRequestRow → Fresh → TransferResponse
paid_transfer r f = record {
  id = f.id;
  reference = f.reference;
  sender_id = r.debtor_id;
  recipient_id = r.requester_id;
  amount_paisa = to_text r.amount_paisa;
  note = r.note;
  status = TransferStatus.completed;
  created_at = f.now;
}

abbrev pub accepted_response : MoneyRequestRow → Fresh → AcceptRequestResponse
accepted_response r f = record {
  request = request_dto r RequestStatus.accepted (some f.now);
  transfer = paid_transfer r f;
}

module _ (S : Services) where
  open S use {Cache}

  -- What `create_request` reads of its payload: the row to insert.
  unfoldable pub draft_request : Uuid → CreateMoneyRequest → Fresh → Action Cache MoneyRequestRow
  draft_request requester_id req f = do
    amount ← lift (money_result (parse_positive_from_str S.is_digit req.amount_paisa))
    resolved ← query (resolve_recipient_user S req.debtor)
    debtor_id ← lift resolved
    raise_if (requester_id == debtor_id) (AppError.bad_request "Cannot request money from yourself")
    pure (record {
      id = f.id;
      requester_id = requester_id;
      debtor_id = debtor_id;
      amount_paisa = amount;
      note = trim (unwrap_or [] req.note);
      status = RequestStatus.pending;
      created_at = f.now;
      resolved_at = none;
    })

  -- The new request is answered with a time of its own.
  unfoldable pub create_request : Uuid → CreateMoneyRequest → Fresh → Action Cache MoneyRequestDto
  unfolding draft_request
  create_request requester_id req f = do
    r ← draft_request requester_id req f
    transaction (record_request r)
    pure (new_request_dto r f.answered_at)

  unfoldable pub accept_request :
      Uuid → Uuid → AcceptMoneyRequest → Fresh → Action Cache AcceptRequestResponse
  accept_request actor_id request_id payload f = do
    enforce_user_pin S actor_id payload.pin f.now
    r ← transaction (pay_request actor_id request_id payload f)
    pure (accepted_response r f)

  unfoldable pub reject_request : Uuid → Uuid → Instant → Action Cache MoneyRequestDto
  reject_request actor_id request_id now = do
    r ← transaction (close_rejected actor_id request_id now)
    pure (request_dto r RequestStatus.rejected (some now))

  unfoldable pub cancel_request : Uuid → Uuid → Instant → Action Cache MoneyRequestDto
  cancel_request actor_id request_id now = do
    r ← transaction (close_cancelled actor_id request_id now)
    pure (request_dto r RequestStatus.cancelled (some now))
