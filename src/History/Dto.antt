-- ===== src/History/Dto.antt =====
-- features/history/dto.rs, and the filters that the service works out of a query.
use Prim.Native.String.{String, ◌++◌}
use pstu_backend.Prelude.{
  ℕ, Instant, Text, Bool, true, ◌||◌, Option, none, some, List, if◌then◌else◌, text_eq,
}
use pstu_backend.Core.Error.{AppError, Result, ok, err}
use pstu_backend.Core.Money.{Parsed, parsed, refused, parse_from_str}
use pstu_backend.Core.Text.{codes}
use pstu_backend.Store.Schema.{
  TransferStatus, completed, rejected, flagged, HistoryKind, HistoryDirection, sent, received,
}
use pstu_backend.Store.Logs.{CounterpartyDto}
use pstu_backend.Transfers.Dto.{money_message}

pub record TransactionHistoryQuery : Type 0 where
  pub direction : Option Text
  pub kind : Option Text
  pub status : Option Text
  pub counterparty : Option Text
  pub from : Option Instant
  pub to : Option Instant
  pub amount_min : Option Text
  pub amount_max : Option Text
  pub q : Option Text
  pub cursor : Option ℕ
  pub limit : Option ℕ

pub record TransactionItemDto : Type 0 where
  pub id : ℕ
  pub reference : Text
  pub kind : Text
  pub direction : Text
  pub status : Text
  pub amount_paisa : Text
  pub running_balance : Text
  pub counterparty : Option CounterpartyDto
  pub note : Text
  pub created_at : Instant

pub record PaginatedTransactionsResponse : Type 0 where
  pub items : List TransactionItemDto
  pub next_cursor : Option ℕ

pub record StatementQuery : Type 0 where
  pub from : Option Instant
  pub to : Option Instant

-- The columns of fixed words, as texts.
abbrev pub status_text : TransferStatus → Text
status_text completed = codes "completed"
status_text rejected = codes "rejected"
status_text flagged = codes "flagged"

abbrev pub kind_text : HistoryKind → Text
kind_text HistoryKind.transfer = codes "transfer"
kind_text HistoryKind.funding = codes "funding"
kind_text HistoryKind.request = codes "request"
kind_text HistoryKind.link = codes "link"

abbrev pub direction_text : HistoryDirection → Text
direction_text sent = codes "sent"
direction_text received = codes "received"

-- The direction filters that are let through, and what they stand for.
abbrev pub is_direction : Option Text → Bool
is_direction none = true
is_direction (some d) =
    text_eq d (codes "sent")
    || text_eq d (codes "received")
    || text_eq d (codes "-1")
    || text_eq d (codes "1")

abbrev pub normalized_direction : Option Text → Option Text
normalized_direction none = none
normalized_direction (some d) =
    if text_eq d (codes "-1")
    then some (codes "sent")
    else if text_eq d (codes "1")
    then some (codes "received")
    else some d

abbrev bound : String → Parsed → Result (Option ℕ)
bound name (parsed n) = ok (some n)
bound name (refused e) = err (AppError.bad_request ("Invalid " ++ name ++ ": " ++ money_message e))

-- An amount filter, by its name in the query.
abbrev pub amount_bound : (ℕ → Bool) → String → Option Text → Result (Option ℕ)
amount_bound is_digit name none = ok none
amount_bound is_digit name (some p) = bound name (parse_from_str is_digit p)
