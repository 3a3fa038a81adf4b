-- ===== src/Links/Dto.antt =====
-- features/links/dto.rs, with the rows of a link under their statements.
use pstu_backend.Prelude.{
  ℕ, Uuid, Instant, Text, Bool, true, not, ◌&&◌, Option, some, [], ◌∷◌, ◌++◌, ltb, leb, ◌==◌,
  length, first_row, update_rows, text_eq,
}
use pstu_backend.Core.Text.{to_text}
use pstu_backend.Store.Schema.{Db, PaymentLinkRow, LinkStatus}
use pstu_backend.Store.Statements.{user_exists, exists_row}
use pstu_backend.Store.Tx.{Tx, ⊤, write}
use pstu_backend.Transfers.Dto.{TransferResponse}

pub record CreatePaymentLinkRequest : Type 0 where
  pub amount_paisa : Text
  pub note : Option Text
  pub expires_in_seconds : Option ℕ
  pub pin : Text

pub record ClaimPaymentLinkRequest : Type 0 where
  pub pin : Text
  pub idempotency_key : Uuid

-- The `url` of the source is the token behind `/l/`, and its `creator_name` and `claimer` are read
-- for display: all three are left out.
pub record PaymentLinkDto : Type 0 where
  pub id : Uuid
  pub token : Text
  pub amount_paisa : Text
  pub note : Text
  pub status : LinkStatus
  pub expires_at : Instant
  pub created_at : Instant
  pub claimed_at : Option Instant
  pub cancelled_at : Option Instant

pub record ClaimPaymentLinkResponse : Type 0 where
  pub transfer : TransferResponse
  pub link : PaymentLinkDto

abbrev pub link_dto : PaymentLinkRow → LinkStatus → Option Instant → Option Instant → PaymentLinkDto
link_dto l status claimed_at cancelled_at = record {
  id = l.id;
  token = l.token;
  amount_paisa = to_text l.amount_paisa;
  note = l.note;
  status = status;
  expires_at = l.expires_at;
  created_at = l.created_at;
  claimed_at = claimed_at;
  cancelled_at = cancelled_at;
}

-- `SELECT … FROM payment_links WHERE token = $1`
abbrev pub find_link : Text → Db → Option PaymentLinkRow
find_link token db = first_row (λ (l : PaymentLinkRow). text_eq l.token token) db.payment_links

-- The CHECKs, keys and foreign key of a new row of `payment_links`.
unfoldable pub link_allowed : PaymentLinkRow → Db → Bool
link_allowed l db =
    ltb 0 l.amount_paisa
    && leb (length l.note) 120
    && user_exists l.creator_id db
    && not (exists_row (λ (k : PaymentLinkRow). k.id == l.id) db.payment_links)
    && not (exists_row (λ (k : PaymentLinkRow). text_eq k.token l.token) db.payment_links)

unfoldable pub insert_link : PaymentLinkRow → Tx ⊤
insert_link l =
    write (link_allowed l) λ db. record db { payment_links = db.payment_links ++ l ∷ [] }

abbrev pub update_links : Uuid → (PaymentLinkRow → PaymentLinkRow) → Db → Db
update_links id f db = record db {
  payment_links = update_rows (λ (l : PaymentLinkRow). l.id == id) f db.payment_links;
}

-- `UPDATE payment_links SET status = 'expired' WHERE id = $1`
abbrev pub mark_expired : PaymentLinkRow → PaymentLinkRow
mark_expired l = record l { status = LinkStatus.expired }

unfoldable pub expire_link : Uuid → Tx ⊤
expire_link id = write (λ _. true) (update_links id mark_expired)

-- `SET status = 'claimed', claimer_id = $1, transfer_id = $2, claimed_at = $3`
abbrev pub mark_claimed : Uuid → Uuid → Instant → PaymentLinkRow → PaymentLinkRow
mark_claimed claimer transfer now l = record l {
  status = LinkStatus.claimed;
  claimer_id = some claimer;
  transfer_id = some transfer;
  claimed_at = some now;
}

unfoldable pub set_claimed : Uuid → Uuid → Uuid → Instant → Tx ⊤
set_claimed id claimer transfer now =
    write (user_exists claimer) (update_links id (mark_claimed claimer transfer now))

-- `SET status = 'cancelled', cancelled_at = $1`
abbrev pub mark_cancelled : Instant → PaymentLinkRow → PaymentLinkRow
mark_cancelled now l = record l { status = LinkStatus.cancelled; cancelled_at = some now }

unfoldable pub set_cancelled : Uuid → Instant → Tx ⊤
set_cancelled id now = write (λ _. true) (update_links id (mark_cancelled now))
