-- ===== src/Auth/Transactions.antt =====
-- The transaction of `register_user` in features/auth/service.rs.
use pstu_backend.Prelude.{ℕ, Text, none, some, [], ◌∷◌}
use pstu_backend.Core.Limits.{seed_balance_paisa}
use pstu_backend.Core.Text.{codes}
use pstu_backend.Store.Schema.{
  UserRow, UserStatus, BalanceRow, LedgerRow, LedgerKind, credit, TxHistoryRow, TransferStatus,
  HistoryKind, HistoryDirection, EntityType, EventName, MetaValue, ProcessEventRow,
}
use pstu_backend.Store.Statements.{insert_ledger, insert_history, history_row}
use pstu_backend.Store.Events.{event_row, log_event_txn}
use pstu_backend.Store.Tx.{Tx, ⊤, ◌>>◌}
use pstu_backend.Auth.Dto.{FreshAccount, insert_user, insert_balance}

abbrev pub new_user : Text → Text → Text → Text → FreshAccount → UserRow
new_user name phone password_hash pin_hash f = record {
  id = f.user_id;
  account_number = f.account_number;
  name = name;
  phone = phone;
  password_hash = password_hash;
  pin_hash = pin_hash;
  pin_updated_at = f.now;
  status = UserStatus.active;
  created_at = f.now;
  updated_at = f.now;
}

abbrev pub seed_balance : FreshAccount → BalanceRow
seed_balance f = record {
  user_id = f.user_id;
  amount_paisa = seed_balance_paisa;
  version = 0;
  updated_at = f.now;
}

abbrev pub funding_row : FreshAccount → LedgerRow
funding_row f = record {
  txn_id = f.funding_txn_id;
  reference = f.funding_ref;
  user_id = f.user_id;
  counterparty_id = none;
  direction = credit;
  amount_paisa = seed_balance_paisa;
  running_balance = seed_balance_paisa;
  kind = LedgerKind.funding;
  idempotency_key = none;
  created_at = f.now;
}

-- 'Initial account registration seed'
abbrev pub funding_note : Text
funding_note = codes "Initial account registration seed"

abbrev pub funding_history : FreshAccount → ℕ → TxHistoryRow
funding_history f =
    history_row f.user_id TransferStatus.completed HistoryKind.funding HistoryDirection.received
      seed_balance_paisa seed_balance_paisa none f.funding_ref f.funding_txn_id funding_note none
      f.now

abbrev pub registered_event : FreshAccount → ProcessEventRow
registered_event f =
    event_row EntityType.auth f.user_id EventName.registered (some f.user_id)
      "Initial user registration and 10M seed funding"
      (("account_number", MetaValue.text f.account_number)
        ∷ ("seed_paisa", MetaValue.number seed_balance_paisa)
        ∷ [])
      f.now

-- Steps 1 to 5: the transaction of a registration.
unfoldable pub open_account : UserRow → FreshAccount → Tx ⊤
open_account u f = do
  insert_user u
  insert_balance (seed_balance f)
  insert_ledger (funding_row f)
  insert_history (funding_history f)
  log_event_txn (registered_event f)
