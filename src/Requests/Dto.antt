-- ===== src/Requests/Dto.antt =====
-- features/requests/dto.rs, with the rows of a request under their statements.
use Prim.Native.String.{String}
use pstu_backend.Prelude.{
  none, Uuid, Instant, Text, Bool, true, false, not, ◌&&◌, Option, some, List, [], ◌∷◌, ◌++◌, ltb,
  leb, ◌==◌, length, first_row, update_rows,
}
use pstu_backend.Core.Text.{to_text}
use pstu_backend.Store.Schema.{
  Db, MoneyRequestRow, RequestStatus, pending, accepted, rejected, cancelled,
}
use pstu_backend.Store.Statements.{user_exists, exists_row}
use pstu_backend.Store.Tx.{Tx, ⊤, write}
use pstu_backend.Transfers.Dto.{TransferResponse}

pub record CreateMoneyRequest : Type 0 where
  pub debtor : Text
  pub amount_paisa : Text
  pub note : Option Text

pub record AcceptMoneyRequest : Type 0 where
  pub pin : Text
  pub idempotency_key : Uuid

pub record MoneyRequestDto : Type 0 where
  pub id : Uuid
  pub requester_id : Uuid
  pub debtor_id : Uuid
  pub amount_paisa : Text
  pub note : Text
  pub status : RequestStatus
  pub created_at : Instant
  pub resolved_at : Option Instant

pub record AcceptRequestResponse : Type 0 where
  pub request : MoneyRequestDto
  pub transfer : TransferResponse

-- The response for a row with its new status and time of resolution.
abbrev pub request_dto : MoneyRequestRow → RequestStatus → Option Instant → MoneyRequestDto
request_dto r status resolved_at = record {
  id = r.id;
  requester_id = r.requester_id;
  debtor_id = r.debtor_id;
  amount_paisa = to_text r.amount_paisa;
  note = r.note;
  status = status;
  created_at = r.created_at;
  resolved_at = resolved_at;
}

-- The answer of `create_request`, at its time.
abbrev pub new_request_dto : MoneyRequestRow → Instant → MoneyRequestDto
new_request_dto r answered_at = record (request_dto r RequestStatus.pending none) {
  created_at = answered_at;
}

abbrev pub is_pending : RequestStatus → Bool
is_pending pending = true
is_pending _ = false

abbrev pub status_text : RequestStatus → String
status_text pending = "pending"
status_text accepted = "accepted"
status_text rejected = "rejected"
status_text cancelled = "cancelled"

-- `SELECT … FROM money_requests WHERE id = $1 FOR UPDATE`
abbrev pub find_request : Uuid → Db → Option MoneyRequestRow
find_request id db = first_row (λ (r : MoneyRequestRow). r.id == id) db.money_requests

-- The CHECKs, the key and the foreign keys of `money_requests`.
unfoldable pub request_allowed : MoneyRequestRow → Db → Bool
request_allowed r db =
    ltb 0 r.amount_paisa
    && leb (length r.note) 200
    && not (r.requester_id == r.debtor_id)
    && user_exists r.requester_id db
    && user_exists r.debtor_id db
    && not (exists_row (λ (q : MoneyRequestRow). q.id == r.id) db.money_requests)

unfoldable pub insert_request : MoneyRequestRow → Tx ⊤
insert_request r =
    write (request_allowed r) λ db. record db { money_requests = db.money_requests ++ r ∷ [] }

-- `UPDATE money_requests SET status = …, resolved_at = $1 WHERE id = $2`
abbrev pub resolve_rows :
    Uuid → RequestStatus → Instant → List MoneyRequestRow → List MoneyRequestRow
resolve_rows id status now =
    update_rows (λ r. r.id == id) λ r. record r { status = status; resolved_at = some now }

unfoldable pub resolve_request : Uuid → RequestStatus → Instant → Tx ⊤
resolve_request id status now =
    write (λ _. true)
      λ db. record db { money_requests = resolve_rows id status now db.money_requests }
