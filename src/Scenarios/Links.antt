-- ===== src/Scenarios/Links.antt =====
-- The theorems on payment links, where Alice funds a link of 700 paisa and Bob claims it.
use pstu_backend.Prelude.{◌≡◌, refl, some, none, [], ◌∷◌, if◌then◌else◌, ◌==◌}
use pstu_backend.Core.Error.{AppError, Result, ok, err}
use pstu_backend.Core.Text.{codes}
use pstu_backend.Store.Schema.{Db, PaymentLinkRow, LinkStatus}
use pstu_backend.Store.Statements.{
  transfer_allowed, update_balance, insert_transfer, insert_ledger, ledger_allowed, insert_history,
  history_allowed,
}
use pstu_backend.Store.Events.{log_event_txn}
use pstu_backend.Movement.{settle, read_balances, write_movement}
use pstu_backend.Links.Dto.{
  ClaimPaymentLinkRequest, ClaimPaymentLinkResponse, find_link, set_claimed, set_cancelled,
}
use pstu_backend.Links.Transactions.{
  pay_claim, claim_response, claim_transaction, cancel_transaction,
}
use pstu_backend.Links.Claimed.{
  Outcome, pay_claim-Paid, claim_transaction-Outcome, Cancelled, cancel_transaction-Cancelled,
}
use pstu_backend.Links.Once.{claim_transaction-again}
use pstu_backend.Scenarios.World.{alice, bob, at, opened, committed, first_transfer}

abbrev link : PaymentLinkRow
link = record {
  id = 60;
  creator_id = alice;
  amount_paisa = 700;
  note = codes "gift";
  token = codes "tok";
  status = LinkStatus.active;
  claimer_id = none;
  transfer_id = none;
  expires_at = 1000;
  created_at = 12;
  claimed_at = none;
  cancelled_at = none;
}

abbrev offered : Db
offered = record opened.db { payment_links = link ∷ [] }

abbrev claim : ClaimPaymentLinkRequest
claim = record { pin = codes "1234"; idempotency_key = 9 }

abbrev answer : Result ClaimPaymentLinkResponse
answer = ok (claim_response link bob 200 (codes "TX-1") 20 (some 20))

unfoldable claimed : Db
unfolding opened claim_transaction settle read_balances write_movement update_balance
    insert_transfer transfer_allowed insert_ledger ledger_allowed insert_history history_allowed
    log_event_txn set_claimed
claimed = committed (claim_transaction bob (codes "tok") claim first_transfer offered)

claim_answered :
    claim_transaction bob (codes "tok") claim first_transfer offered ≡ ok (answer, claimed)
unfolding claimed
claim_answered = refl

claim_paid : pay_claim link bob claim first_transfer offered ≡ ok (answer, claimed)
unfolding claimed
claim_paid = refl

claim_transaction-Outcome_example :
    (l : PaymentLinkRow) × (find_link (codes "tok") offered ≡ some l)
    × Outcome l bob claim first_transfer offered claimed answer
claim_transaction-Outcome_example =
    claim_transaction-Outcome bob (codes "tok") claim first_transfer offered claimed claim_answered

-- Bob claims again, at a later time and with another reference drawn.
claim_transaction-again_example :
    claim_transaction bob (codes "tok") claim (at 30 300 "TX-2") claimed ≡ (
      if bob == bob
      then ok (ok (claim_response link bob 200 (codes "TX-1") 12 (some 12)), claimed)
      else err (AppError.conflict "Payment link was already claimed by another user"))
claim_transaction-again_example =
    claim_transaction-again (codes "tok") link bob bob claim claim first_transfer (at 30 300 "TX-2")
      offered claimed claimed refl
      (pay_claim-Paid link bob claim first_transfer offered claimed claim_paid).1 refl refl

unfoldable withdrawn : Db
unfolding opened cancel_transaction set_cancelled log_event_txn
withdrawn = committed (cancel_transaction alice (codes "tok") 40 offered)

link_cancelled : cancel_transaction alice (codes "tok") 40 offered ≡ ok (link, withdrawn)
unfolding withdrawn
link_cancelled = refl

cancel_transaction-Cancelled_example : Cancelled alice (codes "tok") 40 link offered withdrawn
cancel_transaction-Cancelled_example =
    cancel_transaction-Cancelled alice (codes "tok") 40 offered withdrawn link_cancelled
