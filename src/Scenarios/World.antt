-- ===== src/Scenarios/World.antt =====
-- Two accounts, a transfer, a request and a link, as the handlers make them of an empty database.
use pstu_backend.Prelude.{ℕ, ◌+◌, ◌≡◌, refl, length, Uuid, some}
use Prim.Native.String.{String}
use pstu_backend.Core.Text.{codes, trim, split_once, parse_i64}
use pstu_backend.Core.Pin.{enforce_user_pin}
use pstu_backend.Store.Statements.{
  balance_of, update_balance, insert_transfer, transfer_allowed, insert_ledger, ledger_allowed,
  insert_history, history_allowed,
}
use pstu_backend.Store.Events.{log_event_txn, log_event}
use pstu_backend.Movement.{settle, read_balances, write_movement}
use pstu_backend.Transfers.Transactions.{pay_transfer}
use pstu_backend.Transfers.Service.{process_transfer}
use pstu_backend.Users.{normalize_phone, resolve_recipient_user}
use pstu_backend.Core.Money.{money_regex, parse_positive_from_str}
use pstu_backend.Auth.Register.{register_user}
use pstu_backend.Auth.Transactions.{open_account}
use pstu_backend.Core.App.{AppState}
use pstu_backend.Core.Error.{Result, ok, err}
use pstu_backend.Store.Schema.{Db, empty_db}
use pstu_backend.Auth.Dto.{
  RegisterRequest, FreshAccount, insert_user, user_allowed, insert_balance, balance_allowed,
}
use pstu_backend.Transfers.Dto.{Fresh, CreateTransferRequest}
use pstu_backend.System.{Call, register, transfer, serve, Reachable, start, served}
use pstu_backend.Scenarios.Memory.{memory, nothing_kept}

abbrev pub State : Type 0
State = AppState memory.Cache

abbrev pub alice : Uuid
alice = 1

abbrev pub bob : Uuid
bob = 2

abbrev account : String → String → RegisterRequest
account name phone = record {
  name = codes name;
  phone = codes phone;
  password = codes "secret";
  pin = codes "1234";
}

abbrev pub fresh_account : Uuid → String → FreshAccount
fresh_account id number = record {
  now = 10;
  user_id = id;
  account_number = codes number;
  funding_txn_id = 100 + id;
  funding_ref = codes number;
}

abbrev pub at : ℕ → Uuid → String → Fresh
at now id reference = record {
  now = now;
  today = 0;
  id = id;
  reference = codes reference;
  answered_at = now + 1;
}

abbrev pub empty : State
empty = record { db = empty_db; cache = nothing_kept }

abbrev register_alice : Call
register_alice = register (account "Alice" "+8801700000001") (fresh_account alice "A1")

abbrev register_bob : Call
register_bob = register (account "Bob" "+8801700000002") (fresh_account bob "B1")

-- Alice and Bob have registered.
unfoldable pub opened : State
unfolding serve register_user open_account insert_user user_allowed insert_balance balance_allowed
    insert_ledger ledger_allowed insert_history history_allowed log_event_txn trim
opened = serve memory register_bob (serve memory register_alice empty)

pub opened-Reachable : Reachable memory opened
unfolding opened
opened-Reachable = served _ register_bob (served _ register_alice (start nothing_kept))

abbrev pub transfer_to_bob : CreateTransferRequest
transfer_to_bob = record {
  recipient = codes "01700000002";
  amount_paisa = codes "2500";
  note = some (codes " lunch ");
  pin = codes "1234";
  idempotency_key = 7;
}

abbrev pub first_transfer : Fresh
first_transfer = at 20 200 "TX-1"

-- Alice has paid Bob 2500 paisa.
unfoldable pub paid : State
unfolding opened serve process_transfer enforce_user_pin money_regex split_once parse_i64
    normalize_phone resolve_recipient_user parse_positive_from_str log_event pay_transfer settle
    read_balances write_movement update_balance insert_transfer transfer_allowed insert_ledger
    ledger_allowed insert_history history_allowed log_event_txn trim
paid = serve memory (transfer alice transfer_to_bob first_transfer) opened

pub paid-Reachable : Reachable memory paid
unfolding paid
paid-Reachable = served opened (transfer alice transfer_to_bob first_transfer) opened-Reachable

pub paid_users : length paid.db.users ≡ 2
unfolding paid
paid_users = refl

pub paid_balance : balance_of alice paid.db ≡ some 9997500
unfolding paid
paid_balance = refl

-- The tables that a transaction commits.
abbrev pub committed : {A : Type 0} → Result (A × Db) → Db
committed (ok (a, db)) = db
committed (err e) = empty_db
