-- ===== src/Links/Books.antt =====
-- Payment links keep the books.
use mathlib.Core.Path.{subst}
use pstu_backend.Prelude.{ℕ, Uuid, Instant, Text, arith, some, none, sym}
use pstu_backend.Core.Error.{Result, ok}
use pstu_backend.Core.Services.{Services}
use pstu_backend.Core.App.{AppState, transaction, pure, lift, ◌>>=◌}
use pstu_backend.Core.App.Keeps.{Keeps, >>=-Keeps, answer-Keeps}
use pstu_backend.Core.Pin.{enforce_user_pin}
use pstu_backend.Core.Pin.Keeps.{enforce_user_pin-Keeps}
use pstu_backend.Store.Schema.{Db, PaymentLinkRow, LinkStatus}
use pstu_backend.Books.Invariant.{Books}
use pstu_backend.Books.Unmoved.{Unmoved, Unmoved-Books, log_event-Unmoved}
use pstu_backend.Movement.Conserves.{Settled-Books}
use pstu_backend.Transfers.Dto.{Fresh}
use pstu_backend.Links.Dto.{
  CreatePaymentLinkRequest, ClaimPaymentLinkRequest, ClaimPaymentLinkResponse, link_dto,
}
use pstu_backend.Links.Transactions.{
  record_link, claim_transaction, cancel_transaction, claim_movement,
}
use pstu_backend.Links.Service.{draft_link, create_link, get_link_by_token, claim_link, cancel_link}
use pstu_backend.Links.Claimed.{
  Outcome, claim_transaction-Outcome, cancel_transaction-Cancelled, record_link-Unmoved,
}

Outcome-Books :
    (l : PaymentLinkRow) (claimer : Uuid) (payload : ClaimPaymentLinkRequest) (f : Fresh)
    (db db' : Db) {answer : Result ClaimPaymentLinkResponse}
    → Books db
    → Outcome l claimer payload f db db' answer
    → Books db'
Outcome-Books l claimer payload f db db' b (Outcome.replayed _ _ same) = subst Books (sym same) b
Outcome-Books l claimer payload f db db' b (Outcome.lapsed _ _ r) = Unmoved-Books db db' r.unmoved b
Outcome-Books l claimer payload f db db' b (Outcome.paid _ _ _ p) =
    Unmoved-Books p.paid db' p.claimed.unmoved
      (Settled-Books (claim_movement l claimer payload f) db p.paid p.settled b)

-- Any property that writes outside the books keep is kept by the handlers that move no money.
module _ (S : Services) (P : Db → Type 0)
    (keep : (db db' : Db) → Unmoved db db' → P db → P db') where
  draft_link-Keeps :
      (ttl : ℕ) (u : Uuid) (req : CreatePaymentLinkRequest) (token : Text) (f : Fresh)
      → Keeps P (draft_link S ttl u req token f)
  unfolding draft_link
  draft_link-Keeps ttl u req token f s b = ground (arith, b)

  pub create_link-Keeps :
      (ttl : ℕ) (u : Uuid) (req : CreatePaymentLinkRequest) (token : Text) (f : Fresh)
      → Keeps P (create_link S ttl u req token f)
  unfolding create_link
  create_link-Keeps ttl u req token f =
      >>=-Keeps P (enforce_user_pin S u req.pin f.now)
        (λ _. draft_link S ttl u req token f >>= λ (d : PaymentLinkRow × ℕ).
          transaction (record_link d.0 d.1) >>= λ _.
          pure (link_dto d.0 LinkStatus.active none none))
        (enforce_user_pin-Keeps S P (λ e db b. keep db _ (log_event-Unmoved e db) b) u req.pin
          f.now)
        (λ _.
          >>=-Keeps P (draft_link S ttl u req token f)
            (λ d. transaction (record_link d.0 d.1) >>= λ _.
              pure (link_dto d.0 LinkStatus.active none none))
            (draft_link-Keeps ttl u req token f)
            (λ d.
              answer-Keeps P (record_link d.0 d.1)
                (λ _. ok (link_dto d.0 LinkStatus.active none none))
                (λ db b _ db' e. keep db db' (record_link-Unmoved d.0 d.1 db db' e) b)))

  get_link_by_token-Unmoved :
      (token : Text) (now : Instant) (s : AppState S.Cache)
      → Unmoved s.db (get_link_by_token S token now s).1.db
  unfolding get_link_by_token
  get_link_by_token-Unmoved token now s = ground arith

  pub get_link_by_token-Keeps :
      (token : Text) (now : Instant) → Keeps P (get_link_by_token S token now)
  get_link_by_token-Keeps token now s b = keep s.db _ (get_link_by_token-Unmoved token now s) b

  pub cancel_link-Keeps :
      (actor : Uuid) (token : Text) (now : Instant) → Keeps P (cancel_link S actor token now)
  unfolding cancel_link
  cancel_link-Keeps actor token now =
      answer-Keeps P (cancel_transaction actor token now)
        (λ l. ok (link_dto l LinkStatus.cancelled none (some now)))
        (λ db b l db' e.
          keep db db' (cancel_transaction-Cancelled actor token now db db' e).cancelled.unmoved b)

module _ (S : Services) where
  pub claim_link-Books :
      (claimer : Uuid) (token : Text) (payload : ClaimPaymentLinkRequest) (f : Fresh)
      → Keeps Books (claim_link S claimer token payload f)
  unfolding claim_link
  claim_link-Books claimer token payload f =
      >>=-Keeps Books (enforce_user_pin S claimer payload.pin f.now)
        (λ _. transaction (claim_transaction claimer token payload f) >>= λ a. lift a)
        (enforce_user_pin-Keeps S Books (λ e db b. Unmoved-Books db _ (log_event-Unmoved e db) b)
          claimer payload.pin f.now)
        (λ _.
          answer-Keeps Books (claim_transaction claimer token payload f) (λ a. a)
            (λ db b a db' e.
              let o = claim_transaction-Outcome claimer token payload f db db' e in
              Outcome-Books o.0 claimer payload f db db' b o.2))
