-- ===== src/Links/Transactions.antt =====
-- The transactions of features/links/service.rs. That of a claim may commit and still answer with an
-- error, so it returns a result.
use Prim.Native.String.{String}
use pstu_backend.Prelude.{
  ℕ, Uuid, Instant, Text, not, Option, none, some, List, [], ◌∷◌, ltb, ◌==◌, if◌then◌else◌,
  first_row, unwrap_or,
}
use pstu_backend.Core.Error.{AppError, Result, ok, err}
use pstu_backend.Core.Text.{to_text}
use pstu_backend.Store.Schema.{
  Db, PaymentLinkRow, LinkStatus, TransferRow, TransferStatus, LedgerKind, HistoryKind,
  ProcessEventRow, EntityType, EventName, MetaValue,
}
use pstu_backend.Store.Statements.{same_key}
use pstu_backend.Store.Events.{event_row, log_event_txn}
use pstu_backend.Store.Tx.{Tx, ⊤, pure, fail, select, fail_if, ok_or_fail, ◌>>=◌, ◌>>◌}
use pstu_backend.Movement.{Movement, settle}
use pstu_backend.Transfers.Dto.{Fresh}
use pstu_backend.Links.Dto.{
  ClaimPaymentLinkRequest, ClaimPaymentLinkResponse, link_dto, find_link, insert_link, expire_link,
  set_claimed, set_cancelled,
}

abbrev pub link_event :
    Uuid → Uuid → EventName → String → List (String × MetaValue) → Instant → ProcessEventRow
link_event link_id actor event reason meta now =
    event_row EntityType.link link_id event (some actor) reason meta now

-- The transaction of `create_link`.
unfoldable pub record_link : PaymentLinkRow → ℕ → Tx ⊤
record_link l ttl_secs = do
  insert_link l
  log_event_txn (
      link_event l.id l.creator_id EventName.created "Payment link created"
        (("creator_id", MetaValue.uuid l.creator_id)
          ∷ ("amount_paisa", MetaValue.number l.amount_paisa)
          ∷ ("ttl_secs", MetaValue.number ttl_secs)
          ∷ [])
        l.created_at)

unfoldable pub lock_link : Text → Tx PaymentLinkRow
lock_link token = do
  found ← select (find_link token)
  ok_or_fail (AppError.not_found "Payment link not found") found

abbrev pub claim_response :
    PaymentLinkRow → Uuid → Uuid → Text → Instant → Option Instant → ClaimPaymentLinkResponse
claim_response l claimer_id transfer_id reference created_at claimed_at = record {
  transfer = record {
    id = transfer_id;
    reference = reference;
    sender_id = l.creator_id;
    recipient_id = claimer_id;
    amount_paisa = to_text l.amount_paisa;
    note = l.note;
    status = TransferStatus.completed;
    created_at = created_at;
  };
  link = link_dto l LinkStatus.claimed claimed_at none;
}

-- `SELECT reference FROM transfers WHERE id = $1`, or a new one
abbrev pub transfer_reference : Uuid → Text → Db → Text
transfer_reference id new db = elim (first_row (λ (t : TransferRow). t.id == id) db.transfers) [
  | some t ↦ t.reference
  | none ↦ new
]

-- A link that is claimed already: the claimer is answered as before, another user is refused. The
-- response gives the link's `created_at` as its `claimed_at`.
unfoldable pub replay_claim : PaymentLinkRow → Uuid → Text → Tx (Result ClaimPaymentLinkResponse)
replay_claim l claimer_id new_reference = do
  fail_if (not (same_key l.claimer_id (some claimer_id)))
      (AppError.conflict "Payment link was already claimed by another user")
  let transfer_id = unwrap_or l.id l.transfer_id
  reference ← select (transfer_reference transfer_id new_reference)
  pure (ok (claim_response l claimer_id transfer_id reference l.created_at (some l.created_at)))

-- A link past its time: its status is written and committed, and the claim is refused.
unfoldable pub refuse_expired :
    PaymentLinkRow → Uuid → Text → Instant → Tx (Result ClaimPaymentLinkResponse)
refuse_expired l claimer_id token now = do
  expire_link l.id
  log_event_txn (
      link_event l.id claimer_id EventName.expired "Claim attempted on expired link"
        (("token", MetaValue.text token) ∷ []) now)
  pure (err (AppError.gone "Payment link has expired"))

abbrev pub claim_movement : PaymentLinkRow → Uuid → ClaimPaymentLinkRequest → Fresh → Movement
claim_movement l claimer_id payload f = record {
  payer = l.creator_id;
  payee = claimer_id;
  amount = l.amount_paisa;
  note = l.note;
  reference = f.reference;
  transfer_id = f.id;
  idempotency_key = payload.idempotency_key;
  now = f.now;
  sent_kind = LedgerKind.link_paid;
  received_kind = LedgerKind.link_paid;
  history_kind = HistoryKind.link;
  rows_missing = "Balances not found";
  payer_missing = "Creator balance missing";
  payee_missing = "Claimer balance missing";
  insufficient = "Creator has insufficient balance to fulfill link";
}

-- The payment of a link that is still open.
unfoldable pub pay_claim :
    PaymentLinkRow → Uuid → ClaimPaymentLinkRequest → Fresh → Tx (Result ClaimPaymentLinkResponse)
pay_claim l claimer_id payload f = do
  fail_if (l.creator_id == claimer_id) (AppError.bad_request "Cannot claim your own payment link")
  settle (claim_movement l claimer_id payload f)
  set_claimed l.id claimer_id f.id f.now
  log_event_txn (
      link_event l.id claimer_id EventName.claimed "Payment link claimed successfully"
        (("link_id", MetaValue.uuid l.id)
          ∷ ("claimer_id", MetaValue.uuid claimer_id)
          ∷ ("transfer_id", MetaValue.uuid f.id)
          ∷ ("reference", MetaValue.text f.reference)
          ∷ ("amount_paisa", MetaValue.number l.amount_paisa)
          ∷ [])
        f.now)
  pure (ok (claim_response l claimer_id f.id f.reference f.now (some f.now)))

-- The branches on the status and the time of the locked row.
unfoldable pub claim_row :
    LinkStatus
    → PaymentLinkRow
    → Uuid
    → Text
    → ClaimPaymentLinkRequest
    → Fresh
    → Tx (Result ClaimPaymentLinkResponse)
unfolding replay_claim refuse_expired pay_claim
claim_row LinkStatus.claimed l claimer_id token payload f = replay_claim l claimer_id f.reference
claim_row LinkStatus.expired l claimer_id token payload f = refuse_expired l claimer_id token f.now
claim_row LinkStatus.cancelled l claimer_id token payload f =
    if ltb l.expires_at f.now
    then refuse_expired l claimer_id token f.now
    else fail (AppError.conflict "Payment link has been cancelled by creator")
claim_row LinkStatus.active l claimer_id token payload f =
    if ltb l.expires_at f.now
    then refuse_expired l claimer_id token f.now
    else pay_claim l claimer_id payload f

-- The transaction of `claim_link`.
unfoldable pub claim_transaction :
    Uuid → Text → ClaimPaymentLinkRequest → Fresh → Tx (Result ClaimPaymentLinkResponse)
unfolding lock_link claim_row
claim_transaction claimer_id token payload f = do
  l ← lock_link token
  claim_row l.status l claimer_id token payload f

-- Who may cancel, and when.
unfoldable pub cancel_refusal : LinkStatus → Option AppError
cancel_refusal LinkStatus.claimed =
    some (AppError.conflict "Cannot cancel a link that is already claimed")
cancel_refusal LinkStatus.expired = some (AppError.gone "Cannot cancel an expired link")
cancel_refusal LinkStatus.active = none
cancel_refusal LinkStatus.cancelled = none

abbrev fail_with : Option AppError → Tx ⊤
fail_with none = pure tt
fail_with (some e) = fail e

-- The transaction of `cancel_link`.
unfoldable pub cancel_transaction : Uuid → Text → Instant → Tx PaymentLinkRow
unfolding lock_link cancel_refusal
cancel_transaction actor_id token now = do
  l ← lock_link token
  fail_if (not (actor_id == l.creator_id))
      (AppError.forbidden "Only the link creator can cancel it")
  fail_with (cancel_refusal l.status)
  set_cancelled l.id now
  log_event_txn (
      link_event l.id actor_id EventName.cancelled "Payment link cancelled by creator"
        (("token", MetaValue.text token) ∷ []) now)
  pure l
