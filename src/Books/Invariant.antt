-- ===== src/Books/Invariant.antt =====
-- The invariant of the books, over the three tables that it reads, and its preservation by a posting:
-- one balance written together with one ledger row.
use pstu_backend.Prelude.{
  ℕ, ◌*◌, ◌<◌, ◌≡◌, ◌∙◌, inl, inr, some, none, List, [], ◌∷◌, ◌++◌, map, arith, ◌==◌, if◌then◌else◌,
  Uuid, Instant, length, Bool-cases, i64_limit, true, ==_iff,
}
use pstu_backend.Core.Limits.{seed_balance_paisa}
use pstu_backend.Store.Schema.{Db, UserRow, BalanceRow, LedgerRow}
use pstu_backend.Store.Statements.{set_balance}
use pstu_backend.Books.Balances.{
  amount_in, total, owners, IsKeyed, amount_in-set, set-IsKeyed, owners-set,
}
use pstu_backend.Books.Chain.{entries, Entry, Chain, Chain-append}

pub record Accounts (users : List UserRow) (balances : List BalanceRow) (ledger : List LedgerRow)
    : Type 0 where
  -- each user has one balance
  pub keyed : IsKeyed balances
  pub owned : owners balances ≡ map (λ (r : UserRow). r.id) users
  -- a user's ledger rows lead from nothing to the balance
  pub chains : (u : Uuid) (b : ℕ) → amount_in u balances ≡ some b → Chain 0 (entries u ledger) b
  pub strangers : (u : Uuid) → amount_in u balances ≡ none → entries u ledger ≡ []
  pub in_range : (u : Uuid) (b : ℕ) → amount_in u balances ≡ some b → b < i64_limit

-- The whole invariant: also, the money in the system is what registration has put there.
pub record Books (db : Db) : Type 0 where
  pub accounts : Accounts db.users db.balances db.ledger
  pub funded : total db.balances ≡ length db.users * seed_balance_paisa

pub entries-append :
    (u : Uuid) (rows : List LedgerRow) (e : LedgerRow)
    → entries u (rows ++ e ∷ [])
      ≡ (if e.user_id == u then entries u rows ++ e ∷ [] else entries u rows)
entries-append u [] e = ground arith
entries-append u (x ∷ rows) e = ground (arith, entries-append u rows e)

module _ (users : List UserRow) (balances : List BalanceRow) (ledger : List LedgerRow) (before : ℕ)
    (now : Instant) (e : LedgerRow) (had : amount_in e.user_id balances ≡ some before)
    (entry : Entry before e) (acc : Accounts users balances ledger) where
  posted-Chain :
      (v : Uuid) (b : ℕ)
      → (e.user_id == v) ≡ true
      → amount_in v (set_balance e.user_id e.running_balance now balances) ≡ some b
      → Chain 0 (entries v ledger ++ e ∷ []) b
  posted-Chain v b same h =
      let p : e.user_id ≡ v = (==_iff e.user_id v).0 same in
      let q : b ≡ e.running_balance =
        ground (arith, had, amount_in-set v e.user_id e.running_balance now balances) in
      rw q (
        rw (← p) (
          Chain-append 0 before (entries e.user_id ledger) e (acc.chains e.user_id before had)
            entry))

  post-chains :
      (v : Uuid) (b : ℕ)
      → amount_in v (set_balance e.user_id e.running_balance now balances) ≡ some b
      → Chain 0 (entries v (ledger ++ e ∷ [])) b
  post-chains v b h = elim (Bool-cases (e.user_id == v)) [
    | inl same ↦ rw (entries-append v ledger e, same) (posted-Chain v b same h)
    | inr other ↦
        rw (entries-append v ledger e, other)
          (acc.chains v b
            (ground (arith, amount_in-set v e.user_id e.running_balance now balances)))
  ]

  post-strangers :
      (v : Uuid)
      → amount_in v (set_balance e.user_id e.running_balance now balances) ≡ none
      → entries v (ledger ++ e ∷ []) ≡ []
  post-strangers v h = rw (entries-append v ledger e) (
      ground
        (arith, had, acc.strangers v, amount_in-set v e.user_id e.running_balance now balances))

  pub post-Accounts :
      Accounts users (set_balance e.user_id e.running_balance now balances) (ledger ++ e ∷ [])
  post-Accounts = record {
    keyed = set-IsKeyed e.user_id e.running_balance now balances acc.keyed;
    owned = owners-set e.user_id e.running_balance now balances ∙ acc.owned;
    chains = post-chains;
    strangers = post-strangers;
    in_range = λ v b h. ground (
      arith,
      entry,
      had,
      acc.in_range v b,
      amount_in-set v e.user_id e.running_balance now balances,
    );
  }
