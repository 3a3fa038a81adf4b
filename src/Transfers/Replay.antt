-- ===== src/Transfers/Replay.antt =====
-- The idempotency key: a transfer that was answered is answered the same again.
use pstu_backend.Prelude.{
  ℕ, Uuid, ◌≡◌, ◌∙◌, refl, arith, true, false, none, some, List, [], ◌∷◌, ◌++◌, inl, inr,
  Bool-cases, Option-cases, ltb, ◌==◌, first_row,
}
use pstu_backend.Core.Error.{ok}
use pstu_backend.Core.Limits.{per_transfer_cap_paisa, daily_outflow_cap_paisa}
use pstu_backend.Core.Services.{Services}
use pstu_backend.Core.App.{AppState}
use pstu_backend.Core.App.Keeps.{run-cases}
use pstu_backend.Store.Schema.{Db, TransferRow, flagged}
use pstu_backend.Store.Statements.{insert_transfer, insert_history}
use pstu_backend.Store.Events.{log_event_txn}
use pstu_backend.Store.Tx.{⊤, >>=-eq-ok}
use pstu_backend.Movement.{settle, completed_transfer}
use pstu_backend.Movement.Settled.{settle-Settled}
use pstu_backend.Transfers.Dto.{Draft, Fresh, TransferResponse}
use pstu_backend.Transfers.Transactions.{
  unpaid_transfer, record_rejected, record_flagged, pay_transfer, transfer_movement,
}
use pstu_backend.Transfers.Service.{
  find_transfer_by_key, stored_response, replay, reject_transfer, flag_transfer, execute_transfer,
  charge_daily_outflow, pay_or_flag, new_transfer, transfer_once,
}

find_transfer_by_key-append :
    (key : Uuid) (rows : List TransferRow) (t : TransferRow)
    → first_row (λ (r : TransferRow). r.idempotency_key == key) rows ≡ none
    → t.idempotency_key ≡ key
    → first_row (λ (r : TransferRow). r.idempotency_key == key) (rows ++ t ∷ []) ≡ some t
find_transfer_by_key-append key [] t h e = ground (arith, e)
find_transfer_by_key-append key (x ∷ rows) t h e =
    ground (arith, e, h, find_transfer_by_key-append key rows t)

record_flagged-transfers :
    (d : Draft) (f : Fresh) (n : ℕ) (db db' : Db) {u : ⊤}
    → record_flagged d f n db ≡ ok (u, db')
    → db'.transfers ≡ db.transfers ++ unpaid_transfer d f flagged ∷ []
unfolding record_flagged insert_transfer insert_history log_event_txn
record_flagged-transfers d f n db db' h = ground arith

pay_transfer-transfers :
    (d : Draft) (f : Fresh) (db db' : Db) {u : ⊤}
    → pay_transfer d f db ≡ ok (u, db')
    → db'.transfers ≡ db.transfers ++ completed_transfer (transfer_movement d f) ∷ []
unfolding pay_transfer log_event_txn
pay_transfer-transfers d f db db' h =
    let (u, db₁, e, e') = >>=-eq-ok (settle (transfer_movement d f)) _ db h in
    let s = settle-Settled (transfer_movement d f) db db₁ e in ground (arith, s.after, e')

-- The transfer of a draft, kept under its key with the time of its transaction.
abbrev pub Kept : Draft → Fresh → TransferResponse → Db → Type 0
Kept d f r db =
    (t : TransferRow) × (find_transfer_by_key d.idempotency_key db ≡ some t)
    × (stored_response t ≡ record r { created_at = f.now })
    × (t.sender_id ≡ d.sender_id)
    × (t.recipient_id ≡ d.recipient_id)
    × (t.amount_paisa ≡ d.amount)

module _ (S : Services) (d : Draft) (f : Fresh) (s : AppState S.Cache) (r : TransferResponse)
    (fresh : find_transfer_by_key d.idempotency_key s.db ≡ none) where
  execute_transfer-Kept :
      (execute_transfer S d f s).0 ≡ ok (r, false) → Kept d f r (execute_transfer S d f s).1.db
  unfolding execute_transfer
  execute_transfer-Kept h = elim (run-cases (pay_transfer d f) s.db) [
    | inl (u, db', e) ↦
        let t = pay_transfer-transfers d f s.db db' e in
        rw e (
          completed_transfer (transfer_movement d f),
          rw t (find_transfer_by_key-append d.idempotency_key s.db.transfers _ fresh refl),
          ground (arith, h, e),
          refl,
          refl,
          refl,
        )
    | inr (x, e) ↦ absurd (ground (arith, h, e))
  ]

  flag_transfer-Kept :
      (n : ℕ)
      → (flag_transfer S d f n s).0 ≡ ok (r, false)
      → Kept d f r (flag_transfer S d f n s).1.db
  unfolding flag_transfer
  flag_transfer-Kept n h = elim (run-cases (record_flagged d f n) s.db) [
    | inl (u, db', e) ↦
        let t = record_flagged-transfers d f n s.db db' e in
        rw e (
          unpaid_transfer d f flagged,
          rw t (find_transfer_by_key-append d.idempotency_key s.db.transfers _ fresh refl),
          ground (arith, h, e),
          refl,
          refl,
          refl,
        )
    | inr (x, e) ↦ absurd (ground (arith, h, e))
  ]

  pay_or_flag-Kept :
      (n : ℕ) → (pay_or_flag S d f n s).0 ≡ ok (r, false) → Kept d f r (pay_or_flag S d f n s).1.db
  unfolding pay_or_flag
  pay_or_flag-Kept n h = elim (Bool-cases (ltb daily_outflow_cap_paisa n)) [
    | inl over ↦ rw over (flag_transfer-Kept n (ground (arith, h, over)))
    | inr under ↦ rw under (execute_transfer-Kept (ground (arith, h, under)))
  ]

module _ (S : Services) (d : Draft) (f : Fresh) (s : AppState S.Cache) (r : TransferResponse) where
  pub new_transfer-Kept :
      find_transfer_by_key d.idempotency_key s.db ≡ none
      → (new_transfer S d f s).0 ≡ ok (r, false)
      → Kept d f r (new_transfer S d f s).1.db
  unfolding new_transfer charge_daily_outflow reject_transfer
  new_transfer-Kept fresh h = elim (Bool-cases (ltb per_transfer_cap_paisa d.amount)) [
    | inl over ↦ absurd (elim (run-cases (record_rejected d f) s.db) [
      | inl (u, db', e) ↦ ground (arith, h, over, e)
      | inr (x, e) ↦ ground (arith, h, over, e)
    ])
    | inr under ↦ rw under (pay_or_flag-Kept S d f _ r fresh _ (ground (arith, h, under)))
  ]

  transfer_once-Kept :
      (transfer_once S d f s).0 ≡ ok (r, false) → Kept d f r (transfer_once S d f s).1.db
  unfolding transfer_once replay
  transfer_once-Kept h = elim (Option-cases (find_transfer_by_key d.idempotency_key s.db)) [
    | inl fresh ↦ rw fresh (new_transfer-Kept fresh (ground (arith, h, fresh)))
    | inr (t, used) ↦ absurd (ground (arith, h, used))
  ]

  -- After a transfer that was answered as new, completed or flagged, the same draft in any state
  -- whose transfers show the same row under the key is answered as a replay, with the same response
  -- except for the time of creation, which is the time of the row and not that of the first answer,
  -- and changes nothing.
  pub transfer_once-again :
      (f' : Fresh) (s' : AppState S.Cache)
      → (transfer_once S d f s).0 ≡ ok (r, false)
      → find_transfer_by_key d.idempotency_key s'.db
        ≡ find_transfer_by_key d.idempotency_key (transfer_once S d f s).1.db
      → transfer_once S d f' s' ≡ (ok (record r { created_at = f.now }, true), s')
  unfolding transfer_once replay
  transfer_once-again f' s' h same =
      let (t, found, e, a, b, c) = transfer_once-Kept h in
      let there : find_transfer_by_key d.idempotency_key s'.db ≡ some t = same ∙ found in
      ground (arith, there, e, a, b, c)
