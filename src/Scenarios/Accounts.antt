-- ===== src/Scenarios/Accounts.antt =====
-- The theorem on registration, at the second account.
use pstu_backend.Prelude.{◌+◌, Uuid, ◌≡◌, refl, ◌==◌, if◌then◌else◌, none, some, ◌++◌, ◌∷◌, []}
use pstu_backend.Core.Error.{ok}
use pstu_backend.Core.Limits.{seed_balance_paisa}
use pstu_backend.Core.Text.{codes}
use pstu_backend.Store.Schema.{Db, UserRow}
use pstu_backend.Store.Statements.{
  balance_of, insert_ledger, ledger_allowed, insert_history, history_allowed,
}
use pstu_backend.Store.Events.{log_event_txn}
use pstu_backend.Books.{total}
use pstu_backend.Auth.Dto.{FreshAccount, insert_user, user_allowed, insert_balance, balance_allowed}
use pstu_backend.Auth.Transactions.{new_user, open_account}
use pstu_backend.Auth.Books.{open_account-opens}
use pstu_backend.Scenarios.World.{fresh_account, opened, committed}

abbrev carol : FreshAccount
carol = fresh_account 3 "C1"

abbrev carols_row : UserRow
carols_row = new_user (codes "Carol") (codes "01700000003") (codes "secret") (codes "4321") carol

unfoldable with_carol : Db
unfolding opened open_account insert_user user_allowed insert_balance balance_allowed insert_ledger
    ledger_allowed insert_history history_allowed log_event_txn
with_carol = committed (open_account carols_row carol opened.db)

carol_opened : open_account carols_row carol opened.db ≡ ok (tt, with_carol)
unfolding with_carol
carol_opened = refl

open_account-opens_example :
    (balance_of 3 opened.db ≡ none)
    × ((v : Uuid)
        → balance_of v with_carol
          ≡ (if v == 3 then some seed_balance_paisa else balance_of v opened.db))
    × (total with_carol.balances ≡ total opened.db.balances + seed_balance_paisa)
    × (with_carol.users ≡ opened.db.users ++ carols_row ∷ [])
open_account-opens_example = open_account-opens carols_row carol opened.db with_carol carol_opened
