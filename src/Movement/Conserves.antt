-- ===== src/Movement/Conserves.antt =====
-- A settled movement keeps the books, moves the amount, and touches no third account.
use mathlib.Core.Path.{subst}
use pstu_backend.Prelude.{
  ℕ, ◌+◌, ◌-◌, ◌≤◌, ◌<◌, ◌≡◌, sym, ◌∙◌, some, List, [], ◌∷◌, ◌++◌, arith, ◌==◌, Uuid, i64_add,
  if◌then◌else◌,
}
use pstu_backend.Store.Schema.{Db, BalanceRow}
use pstu_backend.Store.Statements.{balance_of, set_balance, transfer_allowed}
use pstu_backend.Books.{amount_in, amount_in-set, total-set, total, set-IsKeyed}
use pstu_backend.Books.Invariant.{Books, post-Accounts}
use pstu_backend.Books.Chain.{Entry}
use pstu_backend.Core.Error.{ok}
use pstu_backend.Movement.{settle, Movement, debit_row, credit_row}
use pstu_backend.Movement.Settled.{Settled, settled, settle-Settled}

module _ (m : Movement) (db db' : Db) (s : Settled m db db') where
  pub amount_positive : 0 < m.amount
  unfolding transfer_allowed
  amount_positive = ground (arith, s.allowed)

  pub balance_after :
      (u : Uuid)
      → balance_of u db' ≡ (
          if u == m.payer
          then some (s.payer_bal - m.amount)
          else if u == m.payee
          then some (i64_add s.payee_bal m.amount)
          else balance_of u db)
  balance_after u = rw (s.after) (
      ground (
        arith,
        s.distinct,
        s.payer_had,
        s.payee_had,
        amount_in-set u m.payee (i64_add s.payee_bal m.amount) m.now
            (set_balance m.payer (s.payer_bal - m.amount) m.now db.balances),
        amount_in-set u m.payer (s.payer_bal - m.amount) m.now db.balances,
      ))

module _ (m : Movement) (db db' : Db) (s : Settled m db db') (b : Books db) where
  -- The new balance of the payee did not wrap.
  pub no_wrap : i64_add s.payee_bal m.amount ≡ s.payee_bal + m.amount
  no_wrap = ground (
    arith,
    s.covered,
    s.fits,
    b.accounts.in_range m.payer s.payer_bal s.payer_had,
    b.accounts.in_range m.payee s.payee_bal s.payee_had,
  )

  between : List BalanceRow
  between = set_balance m.payer (s.payer_bal - m.amount) m.now db.balances

  payee_between : amount_in m.payee between ≡ some s.payee_bal
  unfolding between
  payee_between = ground (
    arith,
    s.distinct,
    s.payee_had,
    amount_in-set m.payee m.payer (s.payer_bal - m.amount) m.now db.balances,
  )

  debit_Entry : Entry s.payer_bal (debit_row m (s.payer_bal - m.amount))
  debit_Entry = ground (
    arith,
    s.covered,
    amount_positive m db db' s,
    b.accounts.in_range m.payer s.payer_bal s.payer_had,
  )

  credit_Entry : Entry s.payee_bal (credit_row m (i64_add s.payee_bal m.amount))
  credit_Entry = ground (arith, s.fits, no_wrap, amount_positive m db db' s)

  settled-total :
      total (set_balance m.payee (i64_add s.payee_bal m.amount) m.now between) ≡ total db.balances
  unfolding between
  settled-total = omega (
    arith,
    no_wrap,
    s.covered,
    total-set m.payer (s.payer_bal - m.amount) s.payer_bal m.now db.balances b.accounts.keyed
        s.payer_had,
    total-set m.payee (i64_add s.payee_bal m.amount) s.payee_bal m.now between
        (set-IsKeyed m.payer (s.payer_bal - m.amount) m.now db.balances b.accounts.keyed)
        payee_between,
  )

  settled-Books : Books (settled m (s.payer_bal - m.amount) (i64_add s.payee_bal m.amount) db)
  unfolding between
  settled-Books = record {
    accounts =
        post-Accounts db.users between (db.ledger ++ debit_row m (s.payer_bal - m.amount) ∷ [])
          s.payee_bal m.now (credit_row m (i64_add s.payee_bal m.amount)) payee_between credit_Entry
          (post-Accounts db.users db.balances db.ledger s.payer_bal m.now
            (debit_row m (s.payer_bal - m.amount)) s.payer_had debit_Entry b.accounts);
    funded = settled-total ∙ b.funded;
  }

  pub Settled-Books : Books db'
  Settled-Books = subst Books (sym s.after) settled-Books

  pub Settled-total : total db'.balances ≡ total db.balances
  unfolding between
  Settled-total = rw (s.after) settled-total

-- Over books in order, a movement that commits found a balance for payer and payee, the payer's
-- covering the amount; afterwards the payer has the amount less and the payee the amount more, with
-- no wrap-around, every other account has what it had, and the total of all balances is unchanged.
pub settle-moves :
    (m : Movement) (db db' : Db)
    → Books db
    → settle m db ≡ ok (tt, db')
    → (p q : ℕ) × (balance_of m.payer db ≡ some p)
      × (balance_of m.payee db ≡ some q)
      × (m.amount ≤ p)
      × ((u : Uuid)
          → balance_of u db' ≡ (
              if u == m.payer
              then some (p - m.amount)
              else if u == m.payee
              then some (q + m.amount)
              else balance_of u db))
      × (total db'.balances ≡ total db.balances)
settle-moves m db db' b h =
    let s = settle-Settled m db db' h in
    (
      s.payer_bal,
      s.payee_bal,
      s.payer_had,
      s.payee_had,
      s.covered,
      λ u. rw (← no_wrap m db db' s b) (balance_after m db db' s u),
      Settled-total m db db' s b,
    )
