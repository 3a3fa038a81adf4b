-- ===== src/Store/Statements.antt =====
-- The SQL statements on the tables of accounts and movements that more than one feature runs: the
-- constraints of migrations/0001_init.sql as the test of each INSERT and UPDATE.
use mathlib.Core.Option
use pstu_backend.Prelude.{
  ℕ, ◌+◌, Uuid, Instant, Text, Bool, true, false, not, ◌&&◌, Option, none, some, List, [], ◌∷◌,
  ◌++◌, ltb, leb, ◌==◌, if◌then◌else◌, length, first_row, update_rows, is_nonneg, text_eq,
}
use pstu_backend.Store.Schema.{
  Db, UserRow, BalanceRow, TransferRow, LedgerRow, Direction, credit, debit, TxHistoryRow,
  TransferStatus, HistoryKind, HistoryDirection,
}
use pstu_backend.Store.Tx.{Tx, ⊤, select, write}

module _ {ℓ} {A : Type ℓ} where
  abbrev pub is_some : Option A → Bool
  is_some none = false
  is_some (some a) = true

  -- `EXISTS`, as the constraints test it.
  abbrev pub exists_row : (A → Bool) → List A → Bool
  exists_row p xs = is_some (first_row p xs)

-- `WHERE id = $1` on users, and the foreign keys to it.
abbrev pub find_user : Uuid → List UserRow → Option UserRow
find_user u = first_row λ r. r.id == u

abbrev pub user_exists : Uuid → Db → Bool
user_exists u db = exists_row (λ (r : UserRow). r.id == u) db.users

abbrev pub counterparty_exists : Option Uuid → Db → Bool
counterparty_exists none db = true
counterparty_exists (some u) db = user_exists u db

-- `SELECT … FROM balances WHERE user_id = $1`
abbrev pub find_balance : Uuid → List BalanceRow → Option BalanceRow
find_balance u = first_row λ r. r.user_id == u

-- `SELECT amount_paisa FROM balances WHERE user_id = $1`
abbrev pub balance_of : Uuid → Db → Option ℕ
balance_of u db = Option.map (λ (r : BalanceRow). r.amount_paisa) (find_balance u db.balances)

-- `UPDATE balances SET amount_paisa = $1, version = version + 1, updated_at = now() WHERE user_id = $2`
abbrev pub set_balance : Uuid → ℕ → Instant → List BalanceRow → List BalanceRow
set_balance u amount now =
    update_rows (λ r. r.user_id == u)
      λ r. record r { amount_paisa = amount; version = r.version + 1; updated_at = now }

unfoldable pub update_balance : Uuid → ℕ → Instant → Tx ⊤
update_balance u amount now =
    write (λ _. is_nonneg amount)
      λ db. record db { balances = set_balance u amount now db.balances }

-- The rows that `SELECT … WHERE user_id IN ($1, $2) ORDER BY user_id ASC FOR UPDATE` returns when
-- $1 < $2, which are locked in this order.
abbrev pub locked_rows : Option BalanceRow → List BalanceRow → List BalanceRow
locked_rows none rest = rest
locked_rows (some r) rest = r ∷ rest

unfoldable pub lock_balances : Uuid → Uuid → Tx (List BalanceRow)
lock_balances first second = select λ db.
    locked_rows (find_balance first db.balances)
      (if first == second then [] else locked_rows (find_balance second db.balances) [])

-- The CHECKs, UNIQUEs and foreign keys of `transfers`.
unfoldable pub transfer_allowed : TransferRow → Db → Bool
transfer_allowed t db =
    ltb 0 t.amount_paisa
    && leb (length t.note) 200
    && not (t.sender_id == t.recipient_id)
    && user_exists t.sender_id db
    && user_exists t.recipient_id db
    && not (exists_row (λ (r : TransferRow). r.id == t.id) db.transfers)
    && not (exists_row (λ (r : TransferRow). text_eq r.reference t.reference) db.transfers)
    && not (exists_row (λ (r : TransferRow). r.idempotency_key == t.idempotency_key) db.transfers)

unfoldable pub insert_transfer : TransferRow → Tx ⊤
insert_transfer t =
    write (transfer_allowed t) λ db. record db { transfers = db.transfers ++ t ∷ [] }

abbrev pub same_direction : Direction → Direction → Bool
same_direction credit credit = true
same_direction debit debit = true
same_direction _ _ = false

-- Two rows that the index `uq_ledger_idempotency_key` keeps apart; it skips NULL.
abbrev pub same_key : Option Uuid → Option Uuid → Bool
same_key none k = false
same_key (some j) none = false
same_key (some j) (some k) = j == k

-- The CHECKs, foreign keys and unique indexes of `ledger`.
unfoldable pub ledger_allowed : LedgerRow → Db → Bool
ledger_allowed e db =
    ltb 0 e.amount_paisa
    && is_nonneg e.running_balance
    && user_exists e.user_id db
    && counterparty_exists e.counterparty_id db
    && not (
        exists_row
          (λ (r : LedgerRow). r.txn_id == e.txn_id && same_direction r.direction e.direction)
          db.ledger)
    && not (
        exists_row
          (λ (r : LedgerRow).
            same_key r.idempotency_key e.idempotency_key && same_direction r.direction e.direction)
          db.ledger)

unfoldable pub insert_ledger : LedgerRow → Tx ⊤
insert_ledger e = write (ledger_allowed e) λ db. record db { ledger = db.ledger ++ e ∷ [] }

-- The columns of `tx_history` that an INSERT gives; the row's `id` is its position.
abbrev pub history_row :
    Uuid
    → TransferStatus
    → HistoryKind
    → HistoryDirection
    → ℕ
    → ℕ
    → Option Uuid
    → Text
    → Uuid
    → Text
    → Option Uuid
    → Instant
    → ℕ
    → TxHistoryRow
history_row u status kind direction amount after counterparty reference entity note key now id =
    record {
      id = id;
      user_id = u;
      status = status;
      kind = kind;
      direction = direction;
      amount_paisa = amount;
      balance_after = after;
      counterparty_id = counterparty;
      reference = reference;
      entity_id = some entity;
      note = note;
      idempotency_key = key;
      created_at = now;
    }

unfoldable pub history_allowed : TxHistoryRow → Db → Bool
history_allowed h db =
    ltb 0 h.amount_paisa && user_exists h.user_id db && counterparty_exists h.counterparty_id db

unfoldable pub insert_history : (ℕ → TxHistoryRow) → Tx ⊤
insert_history h =
    write (λ db. history_allowed (h (length db.tx_history + 1)) db)
      λ db. record db { tx_history = db.tx_history ++ h (length db.tx_history + 1) ∷ [] }
