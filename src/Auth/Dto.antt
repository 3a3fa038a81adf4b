-- ===== src/Auth/Dto.antt =====
-- features/auth/dto.rs, and the statements on a new account.
use pstu_backend.Prelude.{
  Uuid, Instant, Text, Bool, not, ◌&&◌, [], ◌∷◌, ◌++◌, leb, ◌==◌, length, is_nonneg, text_eq,
}
use pstu_backend.Store.Schema.{Db, UserRow, BalanceRow}
use pstu_backend.Store.Statements.{user_exists, exists_row}
use pstu_backend.Store.Tx.{Tx, ⊤, write}

pub record RegisterRequest : Type 0 where
  pub name : Text
  pub phone : Text
  pub password : Text
  pub pin : Text

pub record RegisterResponse : Type 0 where
  pub id : Uuid
  pub account_number : Text
  pub name : Text
  pub phone : Text
  pub balance : Text
  pub created_at : Instant

-- What a registration draws from its environment.
pub record FreshAccount : Type 0 where
  pub now : Instant
  pub user_id : Uuid
  pub account_number : Text
  pub funding_txn_id : Uuid
  pub funding_ref : Text

-- The CHECKs, keys and column widths of `users`.
unfoldable pub user_allowed : UserRow → Db → Bool
user_allowed u db =
    leb 1 (length u.name)
    && leb (length u.name) 100
    && leb (length u.account_number) 20
    && leb (length u.phone) 20
    && not (user_exists u.id db)
    && not (exists_row (λ (r : UserRow). text_eq r.account_number u.account_number) db.users)
    && not (exists_row (λ (r : UserRow). text_eq r.phone u.phone) db.users)

unfoldable pub insert_user : UserRow → Tx ⊤
insert_user u = write (user_allowed u) λ db. record db { users = db.users ++ u ∷ [] }

unfoldable pub balance_allowed : BalanceRow → Db → Bool
balance_allowed b db =
    is_nonneg b.amount_paisa
    && user_exists b.user_id db
    && not (exists_row (λ (r : BalanceRow). r.user_id == b.user_id) db.balances)

unfoldable pub insert_balance : BalanceRow → Tx ⊤
insert_balance b = write (balance_allowed b) λ db. record db { balances = db.balances ++ b ∷ [] }
