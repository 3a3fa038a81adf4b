-- ===== src/Transfers/Race.antt =====
-- Two transfers with one idempotency key at the same time: both look for a transfer under the key
-- before either has written one. What follows the look-up is `new_transfer`.
use pstu_backend.Prelude.{
  ℕ, ◌≡◌, ◌∙◌, refl, ap, arith, false, some, none, Bool-cases, inl, inr, ltb,
}
use pstu_backend.Core.Error.{AppError, Result, ok, err}
use pstu_backend.Core.Limits.{per_transfer_cap_paisa, daily_outflow_cap_paisa}
use pstu_backend.Core.Services.{Services}
use pstu_backend.Core.App.{AppState}
use pstu_backend.Core.App.Keeps.{run-cases}
use pstu_backend.Store.Schema.{Db, TransferRow, TransferStatus}
use pstu_backend.Store.Statements.{transfer_allowed, insert_transfer}
use pstu_backend.Store.Tx.{Tx, ⊤}
use pstu_backend.Movement.{completed_transfer}
use pstu_backend.Transfers.Dto.{Draft, Fresh, TransferResponse}
use pstu_backend.Transfers.Replay.{new_transfer-Kept}
use pstu_backend.Transfers.Transactions.{
  record_rejected, record_flagged, pay_transfer, transfer_movement, unpaid_transfer,
}
use pstu_backend.Transfers.Books.{pay_transfer-Settled}
use pstu_backend.Transfers.Service.{
  find_transfer_by_key, reject_transfer, flag_transfer, execute_transfer, charge_daily_outflow,
  pay_or_flag, new_transfer,
}

module _ (d : Draft) (f : Fresh) (db : Db) (r : TransferRow)
    (taken : find_transfer_by_key d.idempotency_key db ≡ some r) where
  -- The unique index refuses another row with the key.
  key_refused :
      (t : TransferRow) → t.idempotency_key ≡ d.idempotency_key → transfer_allowed t db ≡ false
  unfolding transfer_allowed
  key_refused t e =
      let there : find_transfer_by_key t.idempotency_key db ≡ some r =
        ap (λ k. find_transfer_by_key k db) e ∙ taken in
      ground (arith, there)

  abbrev Fails : Tx ⊤ → Type 0
  Fails m = (e : AppError) × (m db ≡ err e)

  record_rejected-Fails : Fails (record_rejected d f)
  unfolding record_rejected insert_transfer
  record_rejected-Fails = (
    AppError.database,
    ground (arith, key_refused (unpaid_transfer d f TransferStatus.rejected) refl),
  )

  record_flagged-Fails : (n : ℕ) → Fails (record_flagged d f n)
  unfolding record_flagged insert_transfer
  record_flagged-Fails n = (
    AppError.database,
    ground (arith, key_refused (unpaid_transfer d f TransferStatus.flagged) refl),
  )

  pay_transfer-Fails : Fails (pay_transfer d f)
  pay_transfer-Fails = elim (run-cases (pay_transfer d f) db) [
    | inl (u, db', e) ↦
        let (db₁, m, l) = pay_transfer-Settled d f db db' e in
        absurd
          (ground (arith, m.allowed, key_refused (completed_transfer (transfer_movement d f)) refl))
    | inr (x, e) ↦ (x, e)
  ]

-- Nothing is written, and the answer is an error.
pub record Refused {C : Type 0} {A : Type 0} (db : Db) (x : Result A × AppState C) : Type 0 where
  pub error : AppError
  pub answer : x.0 ≡ err error
  pub unwritten : x.1.db ≡ db

module _ (S : Services) (d : Draft) (f : Fresh) (s : AppState S.Cache) (r : TransferRow)
    (taken : find_transfer_by_key d.idempotency_key s.db ≡ some r) where
  pay_or_flag-Refused : (n : ℕ) → Refused s.db (pay_or_flag S d f n s)
  unfolding pay_or_flag flag_transfer execute_transfer
  pay_or_flag-Refused n =
      let (x, paying) = pay_transfer-Fails d f s.db r taken in
      let (y, flagging) = record_flagged-Fails d f s.db r taken n in
      elim (Bool-cases (ltb daily_outflow_cap_paisa n)) [
        | inl over ↦ record {
          error = y;
          answer = ground (arith, over, flagging);
          unwritten = ground (arith, over, flagging);
        }
        | inr under ↦ record {
          error = x;
          answer = ground (arith, under, paying);
          unwritten = ground (arith, under, paying);
        }
      ]

module _ (S : Services) (d : Draft) (f : Fresh) (s : AppState S.Cache) (r : TransferRow)
    (taken : find_transfer_by_key d.idempotency_key s.db ≡ some r) where
  new_transfer-Refused : Refused s.db (new_transfer S d f s)
  unfolding new_transfer reject_transfer charge_daily_outflow
  new_transfer-Refused =
      let (x, rejecting) = record_rejected-Fails d f s.db r taken in
      elim (Bool-cases (ltb per_transfer_cap_paisa d.amount)) [
        | inl over ↦ record {
          error = x;
          answer = ground (arith, over, rejecting);
          unwritten = ground (arith, over, rejecting);
        }
        | inr under ↦ rw under (pay_or_flag-Refused S d f _ r taken _)
      ]

-- Of two transfers that both found no transfer under one idempotency key, the one that writes
-- second, in any state that shows the key as the first one's answered transfer left it, writes no
-- table and is answered with an error.
pub new_transfer_once :
    (S : Services) (d : Draft) (f : Fresh) (s : AppState S.Cache) (answer : TransferResponse)
    (d' : Draft) (f' : Fresh) (s' : AppState S.Cache)
    → find_transfer_by_key d.idempotency_key s.db ≡ none
    → (new_transfer S d f s).0 ≡ ok (answer, false)
    → d'.idempotency_key ≡ d.idempotency_key
    → find_transfer_by_key d.idempotency_key s'.db
      ≡ find_transfer_by_key d.idempotency_key (new_transfer S d f s).1.db
    → Refused s'.db (new_transfer S d' f' s')
new_transfer_once S d f s answer d' f' s' fresh h same_key still =
    let (t, found, e, a, b, c) = new_transfer-Kept S d f s answer fresh h in
    new_transfer-Refused S d' f' s' t
      (ap (λ k. find_transfer_by_key k s'.db) same_key ∙ still ∙ found)
