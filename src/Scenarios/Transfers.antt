-- ===== src/Scenarios/Transfers.antt =====
-- The theorems on movements and transfers, where Alice pays Bob 2500 paisa.
use pstu_backend.Prelude.{
  ℕ, ◌+◌, ◌-◌, ◌≤◌, Uuid, ◌≡◌, refl, arith, ◌==◌, if◌then◌else◌, some, none, true, false, [],
  length, i64_mul,
}
use pstu_backend.Core.Error.{ok}
use pstu_backend.Core.Text.{codes}
use pstu_backend.Store.Schema.{Db, completed}
use pstu_backend.Store.Statements.{
  balance_of, transfer_allowed, update_balance, insert_transfer, insert_ledger, ledger_allowed,
  insert_history, history_allowed,
}
use pstu_backend.Store.Events.{log_event_txn}
use pstu_backend.Books.{total}
use pstu_backend.Books.Invariant.{Books}
use pstu_backend.Movement.{Movement, completed_transfer, settle, read_balances, write_movement}
use pstu_backend.Movement.Settled.{settled}
use pstu_backend.Movement.Conserves.{settle-moves}
use pstu_backend.Movement.Progress.{Unposted, settle-ok}
use pstu_backend.Transfers.Dto.{Draft, TransferResponse}
use pstu_backend.Transfers.Transactions.{transfer_movement, pay_transfer}
use pstu_backend.Transfers.Service.{
  new_response, transfer_once, process_transfer, new_transfer, find_transfer_by_key,
}
use pstu_backend.Transfers.Race.{Refused, new_transfer_once}
use pstu_backend.Transfers.Outcome.{Ends, daily_total, transfer_once-Ends}
use pstu_backend.Transfers.Replay.{transfer_once-again}
use pstu_backend.Reconcile.{ReconcileReport, run_reconciliation}
use pstu_backend.Reconcile.Sound.{AllReconciled, run_reconciliation_sound}
use pstu_backend.System.Reconciles.{Reachable-Books, Reachable-reconciles}
use pstu_backend.System.Authorised.{Guarded, process_transfer-Guarded}
use pstu_backend.Scenarios.Memory.{memory}
use pstu_backend.Scenarios.World.{
  State, alice, bob, at, opened, opened-Reachable, paid, paid-Reachable, paid_users,
  transfer_to_bob, first_transfer, committed,
}

Reachable-Books_example : Books paid.db
Reachable-Books_example = Reachable-Books memory paid paid-Reachable

Reachable-reconciles_example :
    (r : ReconcileReport) × (run_reconciliation paid.db ≡ ok r)
    × (r.errors ≡ [])
    × (r.users_reconciled ≡ length paid.db.users)
Reachable-reconciles_example =
    Reachable-reconciles memory paid paid-Reachable (omega (arith, paid_users))

unfoldable audited : ReconcileReport
audited = record {
  users_count = 2;
  total_system_balance_paisa = 20000000;
  expected_system_balance_paisa = 20000000;
  users_reconciled = 2;
  ledger_entries_verified = 4;
  errors = [];
}

paid_audited : run_reconciliation paid.db ≡ ok audited
unfolding paid run_reconciliation audited
paid_audited = refl

no_errors : audited.errors ≡ []
unfolding audited
no_errors = refl

run_reconciliation_sound_example :
    (total paid.db.balances ≡ i64_mul (length paid.db.users) 10000000)
    × AllReconciled paid.db paid.db.users
run_reconciliation_sound_example = run_reconciliation_sound paid.db audited paid_audited no_errors

abbrev draft : Draft
draft = record {
  sender_id = alice;
  recipient_id = bob;
  amount = 2500;
  note = codes "lunch";
  idempotency_key = 7;
}

abbrev movement : Movement
movement = transfer_movement draft first_transfer

unfoldable moved : Db
unfolding opened settle read_balances write_movement update_balance insert_transfer transfer_allowed
    insert_ledger ledger_allowed insert_history history_allowed
moved = committed (settle movement opened.db)

movement_settles : settle movement opened.db ≡ ok (tt, moved)
unfolding moved
movement_settles = refl

opened-Books : Books opened.db
opened-Books = Reachable-Books memory opened opened-Reachable

settle-moves_example :
    (p q : ℕ) × (balance_of alice opened.db ≡ some p)
    × (balance_of bob opened.db ≡ some q)
    × (2500 ≤ p)
    × ((u : Uuid)
        → balance_of u moved ≡ (
            if u == alice
            then some (p - 2500)
            else if u == bob
            then some (q + 2500)
            else balance_of u opened.db))
    × (total moved.balances ≡ total opened.db.balances)
settle-moves_example = settle-moves movement opened.db moved opened-Books movement_settles

alice_had : balance_of alice opened.db ≡ some 10000000
unfolding opened
alice_had = refl

bob_had : balance_of bob opened.db ≡ some 10000000
unfolding opened
bob_had = refl

movement_allowed : transfer_allowed (completed_transfer movement) opened.db ≡ true
unfolding opened transfer_allowed
movement_allowed = refl

opened_users : length opened.db.users ≡ 2
unfolding opened
opened_users = refl

movement-Unposted : Unposted movement opened.db.ledger
unfolding opened
movement-Unposted = (refl, refl)

settle-ok_example : settle movement opened.db ≡ ok (tt, settled movement 9997500 10002500 opened.db)
settle-ok_example =
    settle-ok movement opened.db 10000000 10000000 opened-Books (omega (arith, opened_users))
      alice_had bob_had (omega arith) movement_allowed movement-Unposted

transfer_once-Ends_example :
    Ends draft first_transfer opened.db
      (daily_total memory draft first_transfer opened)
      (transfer_once memory draft first_transfer opened)
transfer_once-Ends_example = transfer_once-Ends memory draft first_transfer opened

abbrev response : TransferResponse
response = new_response draft first_transfer completed

transfer_answered : (transfer_once memory draft first_transfer opened).0 ≡ ok (response, false)
unfolding opened transfer_once pay_transfer settle read_balances write_movement update_balance
    insert_transfer transfer_allowed insert_ledger ledger_allowed insert_history history_allowed
    log_event_txn
transfer_answered = refl

abbrev answered : State
answered = (transfer_once memory draft first_transfer opened).1

transfer_once-again_example :
    transfer_once memory draft (at 99 999 "TX-9") answered
    ≡ (ok (record response { created_at = 20 }, true), answered)
transfer_once-again_example =
    transfer_once-again memory draft first_transfer opened response (at 99 999 "TX-9") answered
      transfer_answered refl

key_free : find_transfer_by_key draft.idempotency_key opened.db ≡ none
unfolding opened
key_free = refl

transfer_written : (new_transfer memory draft first_transfer opened).0 ≡ ok (response, false)
unfolding opened new_transfer pay_transfer settle read_balances write_movement update_balance
    insert_transfer transfer_allowed insert_ledger ledger_allowed insert_history history_allowed
    log_event_txn
transfer_written = refl

abbrev written : State
written = (new_transfer memory draft first_transfer opened).1

-- Another request of Alice with the key, which found it free too.
new_transfer_once_example :
    Refused written.db (new_transfer memory draft (at 20 201 "TX-2") written)
new_transfer_once_example =
    new_transfer_once memory draft first_transfer opened response draft (at 20 201 "TX-2") written
      key_free transfer_written refl refl

process_transfer-Guarded_example :
    Guarded memory alice
      (codes "1234")
      opened
      (process_transfer memory alice transfer_to_bob first_transfer opened)
process_transfer-Guarded_example =
    process_transfer-Guarded memory alice transfer_to_bob first_transfer opened
