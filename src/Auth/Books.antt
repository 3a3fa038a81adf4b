-- ===== src/Auth/Books.antt =====
-- A registration keeps the books: the new account starts with its funding row and nothing else.
use mathlib.Core.Path.{subst}
use pstu_backend.Prelude.{
  ℕ, ◌+◌, ◌*◌, Uuid, Text, ◌≡◌, refl, sym, ap, arith, some, none, List, [], ◌∷◌, ◌++◌, map, false,
  if◌then◌else◌, ◌==◌, length, length-append, Bool-cases, inl, inr,
}
use pstu_backend.Core.Error.{ok}
use pstu_backend.Core.Limits.{seed_balance_paisa}
use pstu_backend.Core.Text.{trim}
use pstu_backend.Core.Services.{Services}
use pstu_backend.Core.App.{transaction, pure, ◌>>=◌}
use pstu_backend.Core.App.Keeps.{Keeps, >>=-Keeps, answer-Keeps}
use pstu_backend.Store.Schema.{Db, UserRow, BalanceRow}
use pstu_backend.Store.Statements.{balance_of, find_balance, insert_ledger, insert_history}
use pstu_backend.Store.Events.{log_event_txn}
use pstu_backend.Store.Tx.{⊤}
use pstu_backend.Books.{amount_in, total, owners, IsKeyed}
use pstu_backend.Books.Chain.{entries, Chain}
use pstu_backend.Books.Invariant.{Books, Accounts, entries-append}
use pstu_backend.Auth.Dto.{
  RegisterRequest, FreshAccount, insert_user, insert_balance, balance_allowed,
}
use pstu_backend.Auth.Transactions.{new_user, seed_balance, funding_row, open_account}
use pstu_backend.Auth.Register.{check_account, register_user, register_response}

find_balance-append :
    (v : Uuid) (rows : List BalanceRow) (r : BalanceRow)
    → amount_in v (rows ++ r ∷ []) ≡ (
        if r.user_id == v
        then elim (amount_in v rows) [ none ↦ some r.amount_paisa | some b ↦ some b ]
        else amount_in v rows)
find_balance-append v [] r = ground arith
find_balance-append v (x ∷ rows) r = ground (arith, find_balance-append v rows r)

find_none-append :
    (v : Uuid) (rows : List BalanceRow) (r : BalanceRow)
    → find_balance v rows ≡ none
    → (r.user_id == v) ≡ false
    → find_balance v (rows ++ r ∷ []) ≡ none
find_none-append v [] r h ne = ground arith
find_none-append v (x ∷ rows) r h ne = ground (arith, find_none-append v rows r)

append-IsKeyed :
    (rows : List BalanceRow) (r : BalanceRow)
    → IsKeyed rows
    → find_balance r.user_id rows ≡ none
    → IsKeyed (rows ++ r ∷ [])
append-IsKeyed [] r k h = (refl, tt)
append-IsKeyed (x ∷ rows) r k h =
    ground (arith, append-IsKeyed rows r k.1, find_none-append x.user_id rows r)

total-append :
    (rows : List BalanceRow) (r : BalanceRow) → total (rows ++ r ∷ []) ≡ total rows + r.amount_paisa
total-append [] r = omega arith
total-append (x ∷ rows) r = omega (arith, total-append rows r)

-- What a committed registration has written.
record Opened (u : UserRow) (f : FreshAccount) (db db' : Db) : Type 0 where
  vacant : find_balance f.user_id db.balances ≡ none
  users : db'.users ≡ db.users ++ u ∷ []
  balances : db'.balances ≡ db.balances ++ seed_balance f ∷ []
  ledger : db'.ledger ≡ db.ledger ++ funding_row f ∷ []

open_account-Opened :
    (u : UserRow) (f : FreshAccount) (db db' : Db) {x : ⊤}
    → open_account u f db ≡ ok (x, db')
    → Opened u f db db'
unfolding open_account insert_user insert_balance balance_allowed insert_ledger insert_history
    log_event_txn
open_account-Opened u f db db' h = ground arith

owners-append :
    (rows : List BalanceRow) (r : BalanceRow)
    → owners (rows ++ r ∷ []) ≡ owners rows ++ r.user_id ∷ []
owners-append [] r = refl
owners-append (x ∷ rows) r = ap (λ (us : List Uuid). x.user_id ∷ us) (owners-append rows r)

ids-append :
    (us : List UserRow) (u : UserRow)
    → map (λ (r : UserRow). r.id) (us ++ u ∷ []) ≡ map (λ (r : UserRow). r.id) us ++ u.id ∷ []
ids-append [] u = refl
ids-append (x ∷ us) u = ap (λ (is : List Uuid). x.id ∷ is) (ids-append us u)

module _ (u : UserRow) (f : FreshAccount) (same : u.id ≡ f.user_id) (db : Db) (b : Books db)
    (vacant : find_balance f.user_id db.balances ≡ none) where
  opened-chains :
      (v : Uuid) (x : ℕ)
      → amount_in v (db.balances ++ seed_balance f ∷ []) ≡ some x
      → Chain 0 (entries v (db.ledger ++ funding_row f ∷ [])) x
  opened-chains v x h = elim (Bool-cases (f.user_id == v)) [
    | inl new ↦ ground (
      arith,
      new,
      vacant,
      entries-append v db.ledger (funding_row f),
      find_balance-append v db.balances (seed_balance f),
      b.accounts.strangers v,
    )
    | inr old ↦
        rw (entries-append v db.ledger (funding_row f), old)
          (b.accounts.chains v x
            (ground (arith, old, find_balance-append v db.balances (seed_balance f))))
  ]

  opened-strangers :
      (v : Uuid)
      → amount_in v (db.balances ++ seed_balance f ∷ []) ≡ none
      → entries v (db.ledger ++ funding_row f ∷ []) ≡ []
  opened-strangers v h = ground (
    arith,
    entries-append v db.ledger (funding_row f),
    find_balance-append v db.balances (seed_balance f),
    b.accounts.strangers v,
  )

  opened-Accounts :
      Accounts
        (db.users ++ u ∷ [])
        (db.balances ++ seed_balance f ∷ [])
        (db.ledger ++ funding_row f ∷ [])
  opened-Accounts = record {
    keyed = append-IsKeyed db.balances (seed_balance f) b.accounts.keyed vacant;
    owned =
        rw (
          owners-append db.balances (seed_balance f),
          ids-append db.users u,
          b.accounts.owned,
          same,
        );
    chains = opened-chains;
    strangers = opened-strangers;
    in_range = λ v x h.
        ground (arith, b.accounts.in_range v x, find_balance-append v db.balances (seed_balance f));
  }

  opened-funded :
      total (db.balances ++ seed_balance f ∷ []) ≡ length (db.users ++ u ∷ []) * seed_balance_paisa
  opened-funded = omega (
    arith,
    b.funded,
    total-append db.balances (seed_balance f),
    length-append {0} db.users (u ∷ []),
  )

Opened-Books :
    (u : UserRow) (f : FreshAccount) (db db' : Db)
    → u.id ≡ f.user_id
    → Books db
    → Opened u f db db'
    → Books db'
Opened-Books u f db db' same b o = record {
  accounts =
      subst (λ us. Accounts us db'.balances db'.ledger) (sym o.users)
        (subst (λ bs. Accounts (db.users ++ u ∷ []) bs db'.ledger) (sym o.balances)
          (subst (λ l. Accounts (db.users ++ u ∷ []) (db.balances ++ seed_balance f ∷ []) l)
            (sym o.ledger) (opened-Accounts u f same db b o.vacant)));
  funded = ground (arith, o.users, o.balances, opened-funded u f same db b o.vacant);
}

abbrev user_of : RegisterRequest → FreshAccount → Text × Text → UserRow
user_of req f h = new_user (trim req.name) (trim req.phone) h.0 h.1 f

module _ (S : Services) where
  check_account-Keeps : (req : RegisterRequest) → Keeps Books (check_account S req)
  unfolding check_account
  check_account-Keeps req s b = ground (arith, b)

  -- A registration keeps the books, however it ends.
  pub register_user-Books :
      (req : RegisterRequest) (f : FreshAccount) → Keeps Books (register_user S req f)
  unfolding register_user
  register_user-Books req f =
      >>=-Keeps Books (check_account S req)
        (λ h.
          transaction (open_account (user_of req f h) f) >>= λ _. pure (register_response req f))
        (check_account-Keeps req)
        (λ h.
          answer-Keeps Books (open_account (user_of req f h) f) (λ _. ok (register_response req f))
            (λ db b _ db' e.
              Opened-Books (user_of req f h) f db db' refl b
                (open_account-Opened (user_of req f h) f db db' e)))

-- The transaction of a registration that commits found no balance under the new id; afterwards the
-- new account has the seed balance and every other account what it had, the total has grown by the
-- seed balance, and the user is the last row of the users.
pub open_account-opens :
    (u : UserRow) (f : FreshAccount) (db db' : Db)
    → open_account u f db ≡ ok (tt, db')
    → (balance_of f.user_id db ≡ none)
      × ((v : Uuid)
          → balance_of v db'
            ≡ (if v == f.user_id then some seed_balance_paisa else balance_of v db))
      × (total db'.balances ≡ total db.balances + seed_balance_paisa)
      × (db'.users ≡ db.users ++ u ∷ [])
open_account-opens u f db db' h =
    let o = open_account-Opened u f db db' h in
    (
      ground (arith, o.vacant),
      λ v. ground (arith, o.vacant, o.balances, find_balance-append v db.balances (seed_balance f)),
      ground (arith, o.balances, total-append db.balances (seed_balance f)),
      o.users,
    )
