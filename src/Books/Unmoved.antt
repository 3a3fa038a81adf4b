-- ===== src/Books/Unmoved.antt =====
-- Writes that leave the books alone.
use mathlib.Core.Path.{subst}
use pstu_backend.Prelude.{◌≡◌, refl, sym, ap, arith}
use pstu_backend.Store.Schema.{Db, ProcessEventRow}
use pstu_backend.Store.Events.{log_event}
use pstu_backend.Books.Invariant.{Books, Accounts}

-- The tables of the books are as they were.
pub record Unmoved (db db' : Db) : Type 0 where
  pub users : db'.users ≡ db.users
  pub balances : db'.balances ≡ db.balances
  pub ledger : db'.ledger ≡ db.ledger

pub Unmoved-refl : (db : Db) → Unmoved db db
Unmoved-refl db = record { users = refl; balances = refl; ledger = refl }

pub Unmoved-same : (db db' : Db) → db' ≡ db → Unmoved db db'
Unmoved-same db db' e = record {
  users = ap (λ (x : Db). x.users) e;
  balances = ap (λ (x : Db). x.balances) e;
  ledger = ap (λ (x : Db). x.ledger) e;
}

pub Unmoved-trans : {a b c : Db} → Unmoved a b → Unmoved b c → Unmoved a c
Unmoved-trans h k = ground arith

pub Unmoved-Books : (db db' : Db) → Unmoved db db' → Books db → Books db'
Unmoved-Books db db' h b = record {
  accounts =
      subst (λ u. Accounts u db'.balances db'.ledger) (sym h.users)
        (subst (λ r. Accounts db.users r db'.ledger) (sym h.balances)
          (subst (λ l. Accounts db.users db.balances l) (sym h.ledger) b.accounts));
  funded = ground (arith, h.users, h.balances, b.funded);
}

pub log_event-Unmoved : (e : ProcessEventRow) (db : Db) → Unmoved db (log_event e db)
unfolding log_event
log_event-Unmoved e db = ground arith
