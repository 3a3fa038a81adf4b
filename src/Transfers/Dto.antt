-- ===== src/Transfers/Dto.antt =====
-- features/transfers/dto.rs, and what the service works out of a request.
use Prim.Native.String.{String}
use pstu_backend.Prelude.{ℕ, Uuid, Instant, Text, Option}
use pstu_backend.Core.Error.{AppError, Result, ok, err}
use pstu_backend.Core.Money.{
  MoneyParseError, Parsed, parsed, refused, invalid_format, too_many_decimal_places, non_positive,
  overflow, exceeds_max_cap,
}
use pstu_backend.Store.Schema.{TransferStatus}

pub record CreateTransferRequest : Type 0 where
  pub recipient : Text
  pub amount_paisa : Text
  pub note : Option Text
  pub pin : Text
  pub idempotency_key : Uuid

pub record TransferResponse : Type 0 where
  pub id : Uuid
  pub reference : Text
  pub sender_id : Uuid
  pub recipient_id : Uuid
  pub amount_paisa : Text
  pub note : Text
  pub status : TransferStatus
  pub created_at : Instant

-- What the handler draws from its environment: the clock, a new v4 id and a new reference; `today`
-- is the clock's date, and `answered_at` the clock once the transaction has been committed.
pub record Fresh : Type 0 where
  pub now : Instant
  pub today : ℕ
  pub id : Uuid
  pub reference : Text
  pub answered_at : Instant

-- A request after its amount, recipient and note have been read.
pub record Draft : Type 0 where
  pub sender_id : Uuid
  pub recipient_id : Uuid
  pub amount : ℕ
  pub note : Text
  pub idempotency_key : Uuid

-- `MoneyParseError::to_string`
pub money_message : MoneyParseError → String
money_message invalid_format =
    "invalid money format: must be decimal string matching ^\\d{1,14}(\\.\\d{1,2})?$"
money_message too_many_decimal_places = "money value cannot have more than 2 decimal places"
money_message non_positive = "money value must be strictly positive"
money_message overflow = "money value overflows maximum supported limit"
money_message exceeds_max_cap = "money value exceeds maximum allowable cap"

-- `.map_err(|e| AppError::BadRequest(e.to_string()))`
abbrev pub money_result : Parsed → Result ℕ
money_result (parsed n) = ok n
money_result (refused e) = err (AppError.bad_request (money_message e))
