-- ===== src/Links/Once.antt =====
-- A link is paid at most once.
use pstu_backend.Prelude.{
  Uuid, Instant, Text, ◌≡◌, ◌∙◌, refl, arith, some, List, [], ◌∷◌, ◌==◌, first_row, update_rows,
  text_eq, if◌then◌else◌, false, ◌++◌,
}
use pstu_backend.Core.Error.{AppError, ok, err}
use pstu_backend.Store.Schema.{Db, PaymentLinkRow, TransferRow}
use pstu_backend.Store.Statements.{exists_row, transfer_allowed}
use pstu_backend.Movement.{completed_transfer}
use pstu_backend.Transfers.Queries.{find_transfer}
use pstu_backend.Transfers.Dto.{Fresh}
use pstu_backend.Links.Dto.{ClaimPaymentLinkRequest, find_link, mark_claimed}
use pstu_backend.Links.Transactions.{claim_transaction, claim_response, claim_movement}
use pstu_backend.Links.Claimed.{Paid}

find_link-mark_claimed :
    (token : Text) (id claimer transfer : Uuid) (now : Instant) (rows : List PaymentLinkRow)
    (l : PaymentLinkRow)
    → first_row (λ (x : PaymentLinkRow). text_eq x.token token) rows ≡ some l
    → l.id ≡ id
    → first_row
        (λ (x : PaymentLinkRow). text_eq x.token token)
        (update_rows (λ (x : PaymentLinkRow). x.id == id) (mark_claimed claimer transfer now) rows)
      ≡ some (mark_claimed claimer transfer now l)
find_link-mark_claimed token id claimer transfer now [] l h e = cc
find_link-mark_claimed token id claimer transfer now (x ∷ rows) l h e =
    ground (arith, e, h, find_link-mark_claimed token id claimer transfer now rows l)

-- The row of a link whose claim was paid.
Paid-marks :
    (token : Text) (l : PaymentLinkRow) (claimer : Uuid) (payload : ClaimPaymentLinkRequest)
    (f : Fresh) (db db' : Db)
    → find_link token db ≡ some l
    → Paid l claimer payload f db db'
    → find_link token db' ≡ some (mark_claimed claimer f.id f.now l)
Paid-marks token l claimer payload f db db' found p = ground (
  arith,
  p.claimed.links,
  p.settled.after,
  found,
  find_link-mark_claimed token l.id claimer f.id f.now db.payment_links l found refl,
)

first_row-append :
    (id : Uuid) (rows : List TransferRow) (t : TransferRow)
    → exists_row (λ (r : TransferRow). r.id == id) rows ≡ false
    → t.id ≡ id
    → first_row (λ (r : TransferRow). r.id == id) (rows ++ t ∷ []) ≡ some t
first_row-append id [] t h e = ground (arith, e)
first_row-append id (x ∷ rows) t h e = ground (arith, e, h, first_row-append id rows t)

-- The transfer of a claim that was paid is kept with the reference that was drawn for it.
Paid-transfer :
    (l : PaymentLinkRow) (claimer : Uuid) (payload : ClaimPaymentLinkRequest) (f : Fresh)
    (db db' : Db)
    → Paid l claimer payload f db db'
    → find_transfer f.id db' ≡ some (completed_transfer (claim_movement l claimer payload f))
unfolding transfer_allowed
Paid-transfer l claimer payload f db db' p =
    let new : exists_row (λ (r : TransferRow). r.id == f.id) db.transfers ≡ false =
      ground (arith, p.settled.allowed) in
    ground (
      arith,
      p.claimed.transfers,
      p.settled.after,
      first_row-append f.id db.transfers (completed_transfer (claim_movement l claimer payload f))
          new refl,
    )

-- After the claim of a link was paid, every claim of it in a state that shows the link and its
-- transfer as that payment left them moves nothing: the claimer is answered with the transfer of
-- that payment, by its id, reference, parties, amount and note, with the link's time of creation as
-- the time of the transfer and of the claim, and anyone else is refused with a conflict.
pub claim_transaction-again :
    (token : Text) (l : PaymentLinkRow) (claimer claimer' : Uuid)
    (payload payload' : ClaimPaymentLinkRequest) (f f' : Fresh) (db db' later : Db)
    → find_link token db ≡ some l
    → Paid l claimer payload f db db'
    → find_link token later ≡ find_link token db'
    → find_transfer f.id later ≡ find_transfer f.id db'
    → claim_transaction claimer' token payload' f' later ≡ (
        if claimer == claimer'
        then ok (
          ok (claim_response l claimer' f.id f.reference l.created_at (some l.created_at)),
          later,
        )
        else err (AppError.conflict "Payment link was already claimed by another user"))
unfolding claim_transaction
claim_transaction-again token l claimer claimer' payload payload' f f' db db' later found p same
      kept =
    ground (
      arith,
      same ∙ Paid-marks token l claimer payload f db db' found p,
      kept ∙ Paid-transfer l claimer payload f db db' p,
    )
