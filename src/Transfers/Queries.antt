-- ===== src/Transfers/Queries.antt =====
-- The queries of features/transfers/service.rs.
use pstu_backend.Prelude.{Uuid, Text, Bool, not, ◌||◌, Option, none, some, List, ◌==◌, first_row}
use pstu_backend.Core.Error.{AppError}
use pstu_backend.Core.App.{Action, pure, raise_if, ok_or_raise, query, ◌>>=◌, ◌>>◌}
use pstu_backend.Store.Schema.{Db, UserRow, TransferRow, EntityType}
use pstu_backend.Store.Statements.{find_user}
use pstu_backend.Store.Logs.{ProcessEventDto, entity_events}
use pstu_backend.Transfers.Dto.{TransferResponse}
use pstu_backend.Transfers.Service.{stored_response}

pub record CounterpartyInfo : Type 0 where
  pub id : Uuid
  pub name : Text
  pub account_number : Text

pub record TransferDetailResponse : Type 0 where
  pub transfer : TransferResponse
  pub sender : CounterpartyInfo
  pub recipient : CounterpartyInfo

abbrev pub find_transfer : Uuid → Db → Option TransferRow
find_transfer id db = first_row (λ (r : TransferRow). r.id == id) db.transfers

abbrev info : UserRow → CounterpartyInfo
info u = record { id = u.id; name = u.name; account_number = u.account_number }

-- The row of the JOIN with the sender and the recipient.
abbrev pub joined_parties : Db → Option TransferRow → Option TransferDetailResponse
joined_parties db none = none
joined_parties db (some t) = elim (find_user t.sender_id db.users) [
  | none ↦ none
  | some s ↦ elim (find_user t.recipient_id db.users) [
    | none ↦ none
    | some r ↦ some (record { transfer = stored_response t; sender = info s; recipient = info r })
  ]
]

abbrev pub is_transfer_party : Uuid → Uuid → Uuid → Bool
is_transfer_party actor_id sender_id recipient_id =
    actor_id == sender_id || actor_id == recipient_id

module _ {C : Type 0} where
  unfoldable pub get_transfer_detail : Uuid → Uuid → Action C TransferDetailResponse
  get_transfer_detail actor_id transfer_id = do
    row ← query λ db. joined_parties db (find_transfer transfer_id db)
    detail ← ok_or_raise (AppError.not_found "Transfer not found") row
    raise_if
        (not (is_transfer_party actor_id detail.transfer.sender_id detail.transfer.recipient_id))
        (AppError.not_found "Transfer not found")
    pure detail

  unfoldable pub get_transfer_events : Uuid → Uuid → Action C (List ProcessEventDto)
  get_transfer_events actor_id transfer_id = do
    row ← query (find_transfer transfer_id)
    t ← ok_or_raise (AppError.not_found "Transfer not found") row
    raise_if (not (is_transfer_party actor_id t.sender_id t.recipient_id))
        (AppError.not_found "Transfer not found")
    query (entity_events EntityType.transfer transfer_id)
