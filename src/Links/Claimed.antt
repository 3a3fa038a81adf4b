-- ===== src/Links/Claimed.antt =====
-- Inversion of the transactions of a link: what a commit shows, and what it has written.
use mathlib.Core.Path.{subst}
use pstu_backend.Prelude.{
  ℕ, ◌≤◌, Uuid, Instant, Text, ◌≡◌, ◌≢◌, refl, ◌⊎◌, arith, some, inl, inr, true, false, ◌==◌, Bool,
  ltb, update_rows, Bool-cases,
}
use pstu_backend.Core.Error.{AppError, Result, ok, err}
use pstu_backend.Store.Schema.{Db, PaymentLinkRow, LinkStatus, ProcessEventRow}
use pstu_backend.Store.Events.{log_event_txn}
use pstu_backend.Store.Tx.{Tx, ⊤, >>=-eq-ok, pure, fail_if, ◌>>◌}
use pstu_backend.Books.Unmoved.{Unmoved}
use pstu_backend.Movement.{settle}
use pstu_backend.Movement.Settled.{Settled, settle-Settled}
use pstu_backend.Transfers.Dto.{Fresh}
use pstu_backend.Links.Dto.{
  ClaimPaymentLinkRequest, ClaimPaymentLinkResponse, find_link, mark_claimed, mark_expired,
  mark_cancelled, insert_link, expire_link, set_claimed, set_cancelled,
}
use pstu_backend.Links.Transactions.{
  lock_link, claim_response, replay_claim, refuse_expired, pay_claim, claim_row, claim_transaction,
  cancel_transaction, record_link, claim_movement,
}

-- The tables that follow `db₁` once the link's row is changed by `f` and an event is logged.
pub record Relinked (id : Uuid) (f : PaymentLinkRow → PaymentLinkRow) (db₁ db' : Db) : Type 0 where
  pub unmoved : Unmoved db₁ db'
  pub transfers : db'.transfers ≡ db₁.transfers
  pub links :
      db'.payment_links ≡ update_rows (λ (l : PaymentLinkRow). l.id == id) f db₁.payment_links

-- A claim that was paid.
pub record Paid (l : PaymentLinkRow) (claimer : Uuid) (payload : ClaimPaymentLinkRequest)
    (f : Fresh) (db db' : Db) : Type 0 where
  pub other : l.creator_id ≢ claimer
  pub paid : Db
  pub settled : Settled (claim_movement l claimer payload f) db paid
  pub claimed : Relinked l.id (mark_claimed claimer f.id f.now) paid db'

finish-Relinked :
    {A : Type 0} (l : PaymentLinkRow) (claimer transfer : Uuid) (now : Instant)
    (e : ProcessEventRow) (a : A) (db₁ db' : Db) {x : A}
    → (set_claimed l.id claimer transfer now >> (log_event_txn e >> pure a)) db₁ ≡ ok (x, db')
    → (x ≡ a) × Relinked l.id (mark_claimed claimer transfer now) db₁ db'
unfolding set_claimed log_event_txn
finish-Relinked l claimer transfer now e a db₁ db' h = ground arith

guarded-eq-ok :
    {A : Type 0} (c : Bool) (e : AppError) (k : Tx A) (db db' : Db) {a : A}
    → (fail_if c e >> k) db ≡ ok (a, db')
    → (c ≡ false) × (k db ≡ ok (a, db'))
guarded-eq-ok true e k db db' h = cc
guarded-eq-ok false e k db db' h = (refl, h)

pub pay_claim-Paid :
    (l : PaymentLinkRow) (claimer : Uuid) (payload : ClaimPaymentLinkRequest) (f : Fresh)
    (db db' : Db) {answer : Result ClaimPaymentLinkResponse}
    → pay_claim l claimer payload f db ≡ ok (answer, db')
    → (answer ≡ ok (claim_response l claimer f.id f.reference f.now (some f.now)))
      × Paid l claimer payload f db db'
unfolding pay_claim
pay_claim-Paid l claimer payload f db db' h =
    let g = guarded-eq-ok (l.creator_id == claimer) _ _ db db' h in
    let (u, db₁, e₁, h₁) = >>=-eq-ok (settle (claim_movement l claimer payload f)) _ db g.1 in
    let w = finish-Relinked l claimer f.id f.now _ _ db₁ db' h₁ in
    (
      w.0,
      record {
        other = ground (arith, g.0);
        paid = db₁;
        settled = settle-Settled (claim_movement l claimer payload f) db db₁ e₁;
        claimed = w.1;
      },
    )

pub refuse_expired-Relinked :
    (l : PaymentLinkRow) (claimer : Uuid) (token : Text) (now : Instant) (db db' : Db)
    {answer : Result ClaimPaymentLinkResponse}
    → refuse_expired l claimer token now db ≡ ok (answer, db')
    → (answer ≡ err (AppError.gone "Payment link has expired")) × Relinked l.id mark_expired db db'
unfolding refuse_expired expire_link log_event_txn
refuse_expired-Relinked l claimer token now db db' h = ground arith

pub replay_claim-eq-ok :
    (l : PaymentLinkRow) (claimer : Uuid) (new : Text) (db db' : Db)
    {answer : Result ClaimPaymentLinkResponse}
    → replay_claim l claimer new db ≡ ok (answer, db')
    → (db' ≡ db) × (l.claimer_id ≡ some claimer)
unfolding replay_claim
replay_claim-eq-ok l claimer new db db' h = ground arith

-- The ways in which a claim commits.
pub data Outcome (l : PaymentLinkRow) (claimer : Uuid) (payload : ClaimPaymentLinkRequest)
    (f : Fresh) (db db' : Db) (answer : Result ClaimPaymentLinkResponse) : Type 0 where
  replayed :
      l.status ≡ LinkStatus.claimed
      → l.claimer_id ≡ some claimer
      → db' ≡ db
      → Outcome l claimer payload f db db' answer
  lapsed :
      l.status ≢ LinkStatus.claimed
      → answer ≡ err (AppError.gone "Payment link has expired")
      → Relinked l.id mark_expired db db'
      → Outcome l claimer payload f db db' answer
  paid :
      l.status ≡ LinkStatus.active
      → f.now ≤ l.expires_at
      → answer ≡ ok (claim_response l claimer f.id f.reference f.now (some f.now))
      → Paid l claimer payload f db db'
      → Outcome l claimer payload f db db' answer

claim_row-Outcome :
    (status : LinkStatus) (l : PaymentLinkRow) (claimer : Uuid) (token : Text)
    (payload : ClaimPaymentLinkRequest) (f : Fresh) (db db' : Db)
    {answer : Result ClaimPaymentLinkResponse}
    → l.status ≡ status
    → claim_row status l claimer token payload f db ≡ ok (answer, db')
    → Outcome l claimer payload f db db' answer
unfolding claim_row
claim_row-Outcome LinkStatus.claimed l claimer token payload f db db' s h =
    let r = replay_claim-eq-ok l claimer f.reference db db' h in Outcome.replayed s r.1 r.0
claim_row-Outcome LinkStatus.expired l claimer token payload f db db' s h =
    let r = refuse_expired-Relinked l claimer token f.now db db' h in
    Outcome.lapsed (ground (arith, s)) r.0 r.1
claim_row-Outcome LinkStatus.cancelled l claimer token payload f db db' {answer} s h =
    let late : refuse_expired l claimer token f.now db ≡ ok (answer, db') = ground (arith, h) in
    let r = refuse_expired-Relinked l claimer token f.now db db' late in
    Outcome.lapsed (ground (arith, s)) r.0 r.1
claim_row-Outcome LinkStatus.active l claimer token payload f db db' {answer} s h =
    elim (Bool-cases (ltb l.expires_at f.now)) [
      | inl late ↦
          let at_end : refuse_expired l claimer token f.now db ≡ ok (answer, db') =
            ground (arith, h, late) in
          let r = refuse_expired-Relinked l claimer token f.now db db' at_end in
          Outcome.lapsed (ground (arith, s)) r.0 r.1
      | inr in_time ↦
          let payment : pay_claim l claimer payload f db ≡ ok (answer, db') =
            ground (arith, h, in_time) in
          let r = pay_claim-Paid l claimer payload f db db' payment in
          Outcome.paid s (ground (arith, in_time)) r.0 r.1
    ]

lock_link-eq-ok :
    (token : Text) (db db₁ : Db) {l : PaymentLinkRow}
    → lock_link token db ≡ ok (l, db₁)
    → (db₁ ≡ db) × (find_link token db ≡ some l)
unfolding lock_link
lock_link-eq-ok token db db₁ h = ground arith

-- A claim whose transaction commits found the link and ended in one of three ways: the link was
-- claimed by the same user and nothing was written; the link was not claimed, its row was marked
-- expired, the books are as they were and the answer is that it has expired; or the link was active
-- and in time, its creator is not the claimer, the amount was moved from creator to claimer, and the
-- row was marked claimed.
pub claim_transaction-Outcome :
    (claimer : Uuid) (token : Text) (payload : ClaimPaymentLinkRequest) (f : Fresh) (db db' : Db)
    {answer : Result ClaimPaymentLinkResponse}
    → claim_transaction claimer token payload f db ≡ ok (answer, db')
    → (l : PaymentLinkRow) × (find_link token db ≡ some l)
      × Outcome l claimer payload f db db' answer
unfolding claim_transaction
claim_transaction-Outcome claimer token payload f db db' {answer} h =
    let (l, db₀, e₀, h₀) = >>=-eq-ok (lock_link token) _ db h in
    let k = lock_link-eq-ok token db db₀ e₀ in
    (
      l,
      k.1,
      subst (λ d. Outcome l claimer payload f d db' answer) k.0
          (claim_row-Outcome l.status l claimer token payload f db₀ db' refl h₀),
    )

-- A link that was cancelled.
pub record Cancelled (actor : Uuid) (token : Text) (now : Instant) (l : PaymentLinkRow)
    (db db' : Db) : Type 0 where
  pub found : find_link token db ≡ some l
  pub by_creator : actor ≡ l.creator_id
  pub cancellable : (l.status ≡ LinkStatus.active) ⊎ (l.status ≡ LinkStatus.cancelled)
  pub cancelled : Relinked l.id (mark_cancelled now) db db'

-- A link that was cancelled was there, its creator was the caller and it was active or cancelled
-- before; its row was marked cancelled, and the books and the transfers are as they were.
pub cancel_transaction-Cancelled :
    (actor : Uuid) (token : Text) (now : Instant) (db db' : Db) {l : PaymentLinkRow}
    → cancel_transaction actor token now db ≡ ok (l, db')
    → Cancelled actor token now l db db'
unfolding cancel_transaction set_cancelled log_event_txn
cancel_transaction-Cancelled actor token now db db' h = ground arith

pub record_link-Unmoved :
    (l : PaymentLinkRow) (ttl : ℕ) (db db' : Db) {u : ⊤}
    → record_link l ttl db ≡ ok (u, db')
    → Unmoved db db'
unfolding record_link insert_link log_event_txn
record_link-Unmoved l ttl db db' h = ground arith
