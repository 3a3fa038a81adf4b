-- ===== src/Transfers/Books.antt =====
-- Transfers keep the books.
use pstu_backend.Prelude.{ℕ, Uuid, ◌≡◌, arith, ltb}
use pstu_backend.Core.Error.{ok}
use pstu_backend.Core.Limits.{per_transfer_cap_paisa, daily_outflow_cap_paisa}
use pstu_backend.Core.Services.{Services}
use pstu_backend.Core.App.{lift, ◌>>=◌}
use pstu_backend.Core.App.Keeps.{Keeps, >>=-Keeps, transaction-Keeps, if-Keeps, Option-Keeps}
use pstu_backend.Core.Pin.{enforce_user_pin}
use pstu_backend.Core.Pin.Keeps.{enforce_user_pin-Keeps}
use pstu_backend.Store.Schema.{Db, ProcessEventRow}
use pstu_backend.Store.Statements.{insert_transfer, insert_history}
use pstu_backend.Store.Events.{log_event_txn}
use pstu_backend.Store.Tx.{⊤, >>=-eq-ok}
use pstu_backend.Books.Invariant.{Books}
use pstu_backend.Books.Unmoved.{Unmoved, Unmoved-Books, log_event-Unmoved}
use pstu_backend.Movement.{settle}
use pstu_backend.Movement.Settled.{Settled, settle-Settled}
use pstu_backend.Movement.Conserves.{Settled-Books}
use pstu_backend.Transfers.Dto.{Draft, Fresh, CreateTransferRequest}
use pstu_backend.Transfers.Transactions.{
  record_rejected, record_flagged, pay_transfer, transfer_movement,
}
use pstu_backend.Transfers.Service.{
  reject_transfer, flag_transfer, execute_transfer, new_transfer, transfer_once, draft_transfer,
  process_transfer, find_transfer_by_key, charge_daily_outflow, pay_or_flag, replay,
}

pub record_rejected-Unmoved :
    (d : Draft) (f : Fresh) (db db' : Db) {u : ⊤}
    → record_rejected d f db ≡ ok (u, db')
    → Unmoved db db'
unfolding record_rejected insert_transfer insert_history log_event_txn
record_rejected-Unmoved d f db db' h = ground arith

pub record_flagged-Unmoved :
    (d : Draft) (f : Fresh) (n : ℕ) (db db' : Db) {u : ⊤}
    → record_flagged d f n db ≡ ok (u, db')
    → Unmoved db db'
unfolding record_flagged insert_transfer insert_history log_event_txn
record_flagged-Unmoved d f n db db' h = ground arith

log_event_txn-Unmoved :
    (e : ProcessEventRow) (db db' : Db) {u : ⊤} → log_event_txn e db ≡ ok (u, db') → Unmoved db db'
unfolding log_event_txn
log_event_txn-Unmoved e db db' h = ground arith

-- A paid transfer: the movement was settled, and then the event was logged.
pub pay_transfer-Settled :
    (d : Draft) (f : Fresh) (db db' : Db) {u : ⊤}
    → pay_transfer d f db ≡ ok (u, db')
    → (db₁ : Db) × Settled (transfer_movement d f) db db₁ × Unmoved db₁ db'
unfolding pay_transfer
pay_transfer-Settled d f db db' h =
    let (u, db₁, e, e') = >>=-eq-ok (settle (transfer_movement d f)) _ db h in
    (db₁, settle-Settled (transfer_movement d f) db db₁ e, log_event_txn-Unmoved _ db₁ db' e')

pay_transfer-Books :
    (d : Draft) (f : Fresh) (db db' : Db) {u : ⊤}
    → Books db
    → pay_transfer d f db ≡ ok (u, db')
    → Books db'
pay_transfer-Books d f db db' b h =
    let (db₁, s, m) = pay_transfer-Settled d f db db' h in
    Unmoved-Books db₁ db' m (Settled-Books (transfer_movement d f) db db₁ s b)

module _ (S : Services) where
  reject_transfer-Keeps : (d : Draft) (f : Fresh) → Keeps Books (reject_transfer S d f)
  unfolding reject_transfer
  reject_transfer-Keeps d f =
      >>=-Keeps Books _ _
        (transaction-Keeps Books (record_rejected d f)
          (λ db b u db' e. Unmoved-Books db db' (record_rejected-Unmoved d f db db' e) b))
        (λ u s b. b)

  flag_transfer-Keeps : (d : Draft) (f : Fresh) (n : ℕ) → Keeps Books (flag_transfer S d f n)
  unfolding flag_transfer
  flag_transfer-Keeps d f n =
      >>=-Keeps Books _ _
        (transaction-Keeps Books (record_flagged d f n)
          (λ db b u db' e. Unmoved-Books db db' (record_flagged-Unmoved d f n db db' e) b))
        (λ u s b. b)

  execute_transfer-Keeps : (d : Draft) (f : Fresh) → Keeps Books (execute_transfer S d f)
  unfolding execute_transfer
  execute_transfer-Keeps d f =
      >>=-Keeps Books _ _
        (transaction-Keeps Books (pay_transfer d f)
          (λ db b u db' e. pay_transfer-Books d f db db' b e))
        (λ u s b. b)

  charge_daily_outflow-Keeps : (d : Draft) (f : Fresh) → Keeps Books (charge_daily_outflow S d f)
  unfolding charge_daily_outflow
  charge_daily_outflow-Keeps d f s b = b

  pay_or_flag-Keeps : (d : Draft) (f : Fresh) (n : ℕ) → Keeps Books (pay_or_flag S d f n)
  unfolding pay_or_flag
  pay_or_flag-Keeps d f n =
      if-Keeps Books (ltb daily_outflow_cap_paisa n) (flag_transfer S d f n)
        (execute_transfer S d f) (flag_transfer-Keeps d f n) (execute_transfer-Keeps d f)

  new_transfer-Keeps : (d : Draft) (f : Fresh) → Keeps Books (new_transfer S d f)
  unfolding new_transfer
  new_transfer-Keeps d f =
      if-Keeps Books (ltb per_transfer_cap_paisa d.amount) (reject_transfer S d f)
        (charge_daily_outflow S d f >>= pay_or_flag S d f) (reject_transfer-Keeps d f)
        (>>=-Keeps Books (charge_daily_outflow S d f) (pay_or_flag S d f)
          (charge_daily_outflow-Keeps d f) (pay_or_flag-Keeps d f))

  transfer_once-Keeps : (d : Draft) (f : Fresh) → Keeps Books (transfer_once S d f)
  unfolding transfer_once
  transfer_once-Keeps d f s =
      Option-Keeps Books (find_transfer_by_key d.idempotency_key s.db) (new_transfer S d f)
        (λ r. lift (replay d r)) (new_transfer-Keeps d f) (λ r s b. b) s

  draft_transfer-Keeps :
      (u : Uuid) (req : CreateTransferRequest) → Keeps Books (draft_transfer S u req)
  unfolding draft_transfer
  draft_transfer-Keeps u req s b = ground (arith, b)

  -- A transfer request keeps the books, whatever it is and however it ends.
  pub process_transfer-Books :
      (u : Uuid) (req : CreateTransferRequest) (f : Fresh)
      → Keeps Books (process_transfer S u req f)
  unfolding process_transfer
  process_transfer-Books u req f =
      >>=-Keeps Books (enforce_user_pin S u req.pin f.now)
        (λ _. draft_transfer S u req >>= λ d. transfer_once S d f)
        (enforce_user_pin-Keeps S Books (λ e db b. Unmoved-Books db _ (log_event-Unmoved e db) b) u
          req.pin f.now)
        (λ _.
          >>=-Keeps Books (draft_transfer S u req) (λ d. transfer_once S d f)
            (draft_transfer-Keeps u req) (λ d. transfer_once-Keeps d f))
