-- ===== src/Transfers/Outcome.antt =====
-- How a transfer ends: on every path of `process_transfer` after the request has been read.
use pstu_backend.Prelude.{
  ℕ, ◌≤◌, ◌<◌, ◌≡◌, ◌⊎◌, arith, Bool, true, false, ◌&&◌, ◌==◌, none, some, inl, inr, Bool-cases,
  Option-cases, ltb, unwrap_or,
}
use pstu_backend.Core.Error.{AppError, Result, ok, err}
use pstu_backend.Core.Limits.{per_transfer_cap_paisa, daily_outflow_cap_paisa}
use pstu_backend.Core.Services.{Services, Key}
use pstu_backend.Core.App.{AppState}
use pstu_backend.Core.App.Keeps.{run-cases}
use pstu_backend.Store.Schema.{Db, TransferRow, TransferStatus}
use pstu_backend.Books.Unmoved.{Unmoved, Unmoved-refl}
use pstu_backend.Movement.Settled.{Settled}
use pstu_backend.Transfers.Dto.{Draft, Fresh, TransferResponse}
use pstu_backend.Transfers.Transactions.{
  record_rejected, record_flagged, pay_transfer, transfer_movement,
}
use pstu_backend.Transfers.Service.{
  find_transfer_by_key, stored_response, new_response, replay, reject_transfer, flag_transfer,
  execute_transfer, charge_daily_outflow, pay_or_flag, new_transfer, transfer_once,
}
use pstu_backend.Transfers.Books.{
  record_rejected-Unmoved, record_flagged-Unmoved, pay_transfer-Settled,
}

-- How a transfer is answered that moves no money: with an error; as held for review, when the day's
-- total is over the limit; or with the transfer that the key was used for, as a replay.
pub data Unpaid (d : Draft) (f : Fresh) (db : Db) (total : ℕ)
    : Result (TransferResponse × Bool) → Type 0 where
  failed : (e : AppError) → Unpaid d f db total (err e)
  held :
      find_transfer_by_key d.idempotency_key db ≡ none
      → daily_outflow_cap_paisa < total
      → Unpaid d f db total (ok (new_response d f TransferStatus.flagged, false))
  replayed :
      (r : TransferRow)
      → find_transfer_by_key d.idempotency_key db ≡ some r
      → r.sender_id ≡ d.sender_id
      → r.recipient_id ≡ d.recipient_id
      → r.amount_paisa ≡ d.amount
      → Unpaid d f db total (ok (stored_response r, true))

-- The money has moved, under a key that was free and within the limits, and nothing else happened to
-- the books.
pub record Paid (d : Draft) (f : Fresh) (db db' : Db) (total : ℕ) : Type 0 where
  pub fresh : find_transfer_by_key d.idempotency_key db ≡ none
  pub within_cap : d.amount ≤ per_transfer_cap_paisa
  pub within_day : total ≤ daily_outflow_cap_paisa
  pub paid : Db
  pub settled : Settled (transfer_movement d f) db paid
  pub logged : Unmoved paid db'

-- The ends of a transfer, given the total of the day that the counter answers with.
abbrev pub Ends :
    {C : Type 0} → Draft → Fresh → Db → ℕ → Result (TransferResponse × Bool) × AppState C → Type 0
Ends d f db total x =
    (Unmoved db x.1.db × Unpaid d f db total x.0)
    ⊎ (Paid d f db x.1.db total × (x.0 ≡ ok (new_response d f TransferStatus.completed, false)))

module _ (S : Services) (d : Draft) (f : Fresh) (s : AppState S.Cache) (total : ℕ)
    (fresh : find_transfer_by_key d.idempotency_key s.db ≡ none) where
  reject_transfer-Ends : Ends d f s.db total (reject_transfer S d f s)
  unfolding reject_transfer
  reject_transfer-Ends = elim (run-cases (record_rejected d f) s.db) [
    | inl (u, db', e) ↦ inl (rw e (record_rejected-Unmoved d f s.db db' e), rw e (failed _))
    | inr (x, e) ↦ inl (rw e (Unmoved-refl s.db), rw e (failed x))
  ]

  flag_transfer-Ends :
      daily_outflow_cap_paisa < total → Ends d f s.db total (flag_transfer S d f total s)
  unfolding flag_transfer
  flag_transfer-Ends over = elim (run-cases (record_flagged d f total) s.db) [
    | inl (u, db', e) ↦
        inl (rw e (record_flagged-Unmoved d f total s.db db' e), rw e (held fresh over))
    | inr (x, e) ↦ inl (rw e (Unmoved-refl s.db), rw e (failed x))
  ]

  module _ (within_cap : d.amount ≤ per_transfer_cap_paisa) where
    execute_transfer-Ends :
        total ≤ daily_outflow_cap_paisa → Ends d f s.db total (execute_transfer S d f s)
    unfolding execute_transfer
    execute_transfer-Ends within_day = elim (run-cases (pay_transfer d f) s.db) [
      | inl (u, db', e) ↦
          let (db₁, m, l) = pay_transfer-Settled d f s.db db' e in
          inr (
            rw e (record {
              fresh = fresh;
              within_cap = within_cap;
              within_day = within_day;
              paid = db₁;
              settled = m;
              logged = l;
            }),
            ground (arith, e),
          )
      | inr (x, e) ↦ inl (rw e (Unmoved-refl s.db), rw e (failed x))
    ]

    pay_or_flag-Ends : Ends d f s.db total (pay_or_flag S d f total s)
    unfolding pay_or_flag
    pay_or_flag-Ends = elim (Bool-cases (ltb daily_outflow_cap_paisa total)) [
      | inl over ↦ rw over (flag_transfer-Ends (ground (arith, over)))
      | inr under ↦ rw under (execute_transfer-Ends (ground (arith, under)))
    ]

module _ (S : Services) (d : Draft) (f : Fresh) (s : AppState S.Cache) where
  -- The total of the day that the counter answers with.
  abbrev pub daily_total : ℕ
  daily_total = unwrap_or 0 (S.incr (Key.daily_outflow d.sender_id f.today) d.amount s.cache).0

  abbrev charged : AppState S.Cache
  charged = (charge_daily_outflow S d f s).1

  new_transfer-Ends :
      find_transfer_by_key d.idempotency_key s.db ≡ none
      → Ends d f s.db daily_total (new_transfer S d f s)
  unfolding new_transfer charge_daily_outflow
  new_transfer-Ends fresh = elim (Bool-cases (ltb per_transfer_cap_paisa d.amount)) [
    | inl over ↦ rw over (reject_transfer-Ends S d f s daily_total fresh)
    | inr under ↦
        rw under (pay_or_flag-Ends S d f charged daily_total fresh (ground (arith, under)))
  ]

  replay-Unpaid :
      (r : TransferRow)
      → find_transfer_by_key d.idempotency_key s.db ≡ some r
      → Unpaid d f s.db daily_total (replay d r)
  unfolding replay
  replay-Unpaid r used =
      elim (Bool-cases (
        r.sender_id == d.sender_id
        && r.recipient_id == d.recipient_id
        && r.amount_paisa == d.amount)) [
          | inl same ↦
              rw same (
                replayed r used (ground (arith, same)) (ground (arith, same))
                  (ground (arith, same)))
          | inr other ↦ rw other (failed _)
        ]

  -- However a transfer ends once its request has been read: either the books are as they were, and
  -- the answer is an error, or that of a flagged transfer, with the key free before and the day's
  -- total over the daily cap, or, as a replay, the stored transfer of the key, which has the same
  -- sender, recipient and amount; or the key was free before, the amount is within the cap for one
  -- transfer and the day's total that the counter answered is within the daily cap, the movement was
  -- settled once, nothing else happened to the books, and the answer is that of a new completed
  -- transfer.
  pub transfer_once-Ends : Ends d f s.db daily_total (transfer_once S d f s)
  unfolding transfer_once
  transfer_once-Ends = elim (Option-cases (find_transfer_by_key d.idempotency_key s.db)) [
    | inl fresh ↦ rw fresh (new_transfer-Ends fresh)
    | inr (r, used) ↦ rw used (inl (Unmoved-refl s.db, replay-Unpaid r used))
  ]
