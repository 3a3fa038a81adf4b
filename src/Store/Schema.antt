-- ===== src/Store/Schema.antt =====
-- migrations/0001_init.sql and the row types of the features: the tables as lists of rows in the
-- order of insertion. A TEXT column under a CHECK of fixed words is a data type of those words.
-- A BIGSERIAL column is the row's position, from 1 on: no row of these tables is ever deleted.
use Prim.Native.String.{String}
use pstu_backend.Prelude.{ℕ, Uuid, Instant, Text, Option, List, []}

pub data UserStatus : Type 0 where
  active suspended locked : UserStatus

pub record UserRow : Type 0 where
  pub id : Uuid
  pub account_number : Text
  pub name : Text
  pub phone : Text
  pub password_hash : Text
  pub pin_hash : Text
  pub pin_updated_at : Instant
  pub status : UserStatus
  pub created_at : Instant
  pub updated_at : Instant

pub record BalanceRow : Type 0 where
  pub user_id : Uuid
  pub amount_paisa : ℕ
  pub version : ℕ
  pub updated_at : Instant

pub data TransferStatus : Type 0 where
  completed rejected flagged : TransferStatus

pub record TransferRow : Type 0 where
  pub id : Uuid
  pub reference : Text
  pub sender_id : Uuid
  pub recipient_id : Uuid
  pub amount_paisa : ℕ
  pub note : Text
  pub status : TransferStatus
  pub idempotency_key : Uuid
  pub created_at : Instant

-- `direction` is +1 for a credit and -1 for a debit.
pub data Direction : Type 0 where
  credit debit : Direction

pub data LedgerKind : Type 0 where
  funding transfer_sent transfer_received request_paid link_paid : LedgerKind

pub record LedgerRow : Type 0 where
  pub txn_id : Uuid
  pub reference : Text
  pub user_id : Uuid
  pub counterparty_id : Option Uuid
  pub direction : Direction
  pub amount_paisa : ℕ
  pub running_balance : ℕ
  pub kind : LedgerKind
  pub idempotency_key : Option Uuid
  pub created_at : Instant

pub data RequestStatus : Type 0 where
  pending accepted rejected cancelled : RequestStatus

pub record MoneyRequestRow : Type 0 where
  pub id : Uuid
  pub requester_id : Uuid
  pub debtor_id : Uuid
  pub amount_paisa : ℕ
  pub note : Text
  pub status : RequestStatus
  pub created_at : Instant
  pub resolved_at : Option Instant

pub data LinkStatus : Type 0 where
  active claimed expired cancelled : LinkStatus

pub record PaymentLinkRow : Type 0 where
  pub id : Uuid
  pub creator_id : Uuid
  pub amount_paisa : ℕ
  pub note : Text
  pub token : Text
  pub status : LinkStatus
  pub claimer_id : Option Uuid
  pub transfer_id : Option Uuid
  pub expires_at : Instant
  pub created_at : Instant
  pub claimed_at : Option Instant
  pub cancelled_at : Option Instant

pub data EntityType : Type 0 where
  transfer request link auth system : EntityType

pub data EventName : Type 0 where
  registered login_success login_failed logout created completed rejected flagged : EventName
  accepted cancelled expired claimed pin_failed pin_changed pin_reset : EventName

-- A value in the JSON object of an event.
pub data MetaValue : Type 0 where
  number : ℕ → MetaValue
  uuid : Uuid → MetaValue
  text : Text → MetaValue
  word : String → MetaValue

pub record ProcessEventRow : Type 0 where
  pub entity_type : EntityType
  pub entity_id : Uuid
  pub event : EventName
  pub actor_id : Option Uuid
  pub reason : String
  pub meta : List (String × MetaValue)
  pub created_at : Instant

pub data HistoryKind : Type 0 where
  transfer funding request link : HistoryKind

pub data HistoryDirection : Type 0 where
  sent received : HistoryDirection

pub record TxHistoryRow : Type 0 where
  pub id : ℕ
  pub user_id : Uuid
  pub status : TransferStatus
  pub kind : HistoryKind
  pub direction : HistoryDirection
  pub amount_paisa : ℕ
  pub balance_after : ℕ
  pub counterparty_id : Option Uuid
  pub reference : Text
  pub entity_id : Option Uuid
  pub note : Text
  pub idempotency_key : Option Uuid
  pub created_at : Instant

pub data NotificationKind : Type 0 where
  credit debit request link system : NotificationKind

pub record NotificationRow : Type 0 where
  pub id : ℕ
  pub user_id : Uuid
  pub kind : NotificationKind
  pub title : Text
  pub body : Text
  pub entity_type : Option Text
  pub entity_id : Option Uuid
  pub read_at : Option Instant
  pub created_at : Instant

pub record Db : Type 0 where
  pub users : List UserRow
  pub balances : List BalanceRow
  pub transfers : List TransferRow
  pub ledger : List LedgerRow
  pub money_requests : List MoneyRequestRow
  pub payment_links : List PaymentLinkRow
  pub process_events : List ProcessEventRow
  pub tx_history : List TxHistoryRow
  pub notifications : List NotificationRow

abbrev pub empty_db : Db
empty_db = record {
  users = [];
  balances = [];
  transfers = [];
  ledger = [];
  money_requests = [];
  payment_links = [];
  process_events = [];
  tx_history = [];
  notifications = [];
}
