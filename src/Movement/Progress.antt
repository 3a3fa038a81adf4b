-- ===== src/Movement/Progress.antt =====
-- A movement that nothing forbids is settled.
use pstu_backend.Prelude.{
  ℕ, ◌+◌, ◌-◌, ◌*◌, ◌≤◌, ◌<◌, ◌≡◌, ◌≢◌, refl, arith, true, false, ◌&&◌, some, List, [], ◌∷◌, ◌++◌,
  inl, inr, ◌==◌, length, i64_add, i64_limit, is_nonneg, Option-cases,
}
use pstu_backend.Core.Error.{ok}
use pstu_backend.Core.Limits.{seed_balance_paisa}
use pstu_backend.Store.Schema.{Db, LedgerRow, Direction, credit, debit}
use pstu_backend.Store.Statements.{
  balance_of, find_balance, set_balance, exists_row, user_exists, transfer_allowed, ledger_allowed,
  history_allowed, update_balance, insert_transfer, insert_ledger, insert_history, same_key,
  same_direction,
}
use pstu_backend.Books.{amounts-le-total}
use pstu_backend.Books.Invariant.{Books}
use pstu_backend.Movement.{
  Movement, completed_transfer, debit_row, credit_row, read_balances, write_movement, settle,
}
use pstu_backend.Movement.Settled.{settled, transfer_allowed-balances, find_balance-user_id}

-- The ledger knows neither the transfer nor its key.
abbrev pub Unposted : Movement → List LedgerRow → Type 0
Unposted m rows =
    (exists_row (λ (r : LedgerRow). r.txn_id == m.transfer_id) rows ≡ false)
    × (exists_row (λ (r : LedgerRow). same_key r.idempotency_key (some m.idempotency_key)) rows
        ≡ false)

read_balances-ok :
    (m : Movement) (db : Db) (p q : ℕ)
    → m.payer ≢ m.payee
    → balance_of m.payer db ≡ some p
    → balance_of m.payee db ≡ some q
    → read_balances m db ≡ ok ((p, q), db)
unfolding read_balances
read_balances-ok m db p q other hp hq = elim (Option-cases (find_balance m.payer db.balances)) [
  | inl e ↦ ground (arith, e, hp)
  | inr (r, e) ↦ elim (Option-cases (find_balance m.payee db.balances)) [
    | inl e' ↦ ground (arith, e', hq)
    | inr (r', e') ↦ ground (
      arith,
      other,
      hp,
      hq,
      e,
      e',
      find_balance-user_id m.payer db.balances r e,
      find_balance-user_id m.payee db.balances r' e',
    )
  ]
]

Unposted-both :
    (m : Movement) (d : Direction) (rows : List LedgerRow)
    → Unposted m rows
    → (exists_row
          (λ (r : LedgerRow). r.txn_id == m.transfer_id && same_direction r.direction d)
          rows
        ≡ false)
      × (exists_row
            (λ (r : LedgerRow).
              same_key r.idempotency_key (some m.idempotency_key) && same_direction r.direction d)
            rows
          ≡ false)
Unposted-both m d [] h = (refl, refl)
Unposted-both m d (r ∷ rows) h = ground (arith, h, Unposted-both m d rows)

Unposted-debit :
    (m : Movement) (n : ℕ) (rows : List LedgerRow)
    → Unposted m rows
    → (exists_row
          (λ (r : LedgerRow). r.txn_id == m.transfer_id && same_direction r.direction credit)
          (rows ++ debit_row m n ∷ [])
        ≡ false)
      × (exists_row
            (λ (r : LedgerRow).
              same_key r.idempotency_key (some m.idempotency_key)
              && same_direction r.direction credit)
            (rows ++ debit_row m n ∷ [])
          ≡ false)
Unposted-debit m n [] h = ground arith
Unposted-debit m n (r ∷ rows) h = ground (arith, h, Unposted-debit m n rows)

transfer_allowed-users :
    (m : Movement) (db : Db)
    → transfer_allowed (completed_transfer m) db ≡ true
    → (0 < m.amount) × (user_exists m.payer db ≡ true) × (user_exists m.payee db ≡ true)
unfolding transfer_allowed
transfer_allowed-users m db h = ground (arith, h)

module _ (m : Movement) (p q : ℕ) where
  debit_allowed :
      (db : Db)
      → 0 < m.amount
      → is_nonneg p ≡ true
      → user_exists m.payer db ≡ true
      → user_exists m.payee db ≡ true
      → Unposted m db.ledger
      → ledger_allowed (debit_row m p) db ≡ true
  unfolding ledger_allowed
  debit_allowed db a n h h' u = ground (arith, a, n, h, h', Unposted-both m debit db.ledger u)

  credit_allowed :
      (db : Db) (rows : List LedgerRow)
      → 0 < m.amount
      → is_nonneg q ≡ true
      → user_exists m.payer db ≡ true
      → user_exists m.payee db ≡ true
      → db.ledger ≡ rows ++ debit_row m p ∷ []
      → Unposted m rows
      → ledger_allowed (credit_row m q) db ≡ true
  unfolding ledger_allowed
  credit_allowed db rows a n h h' e u = ground (arith, a, n, h, h', e, Unposted-debit m p rows u)

  write_movement-ok :
      (db : Db)
      → is_nonneg p ≡ true
      → is_nonneg q ≡ true
      → transfer_allowed (completed_transfer m) db ≡ true
      → Unposted m db.ledger
      → write_movement m p q db ≡ ok (tt, settled m p q db)
  unfolding write_movement update_balance insert_transfer insert_ledger insert_history
      history_allowed
  write_movement-ok db np nq t u =
      let users = transfer_allowed-users m db t in
      let written : Db = record db {
        balances = set_balance m.payee q m.now (set_balance m.payer p m.now db.balances);
      } in
      let listed : Db = record written { transfers = db.transfers ++ completed_transfer m ∷ [] } in
      ground (
        arith,
        np,
        nq,
        t,
        users.0,
        users.1,
        users.2,
        transfer_allowed-balances (completed_transfer m) db written.balances,
        debit_allowed listed users.0 np users.1 users.2 u,
        credit_allowed (record listed { ledger = db.ledger ++ debit_row m p ∷ [] }) db.ledger
            users.0 nq users.1 users.2 refl u,
      )

-- Over books in order whose money fits a BIGINT, a movement is settled, with the two new balances,
-- when both parties have a balance, the payer's covers the amount, the transfer row violates no
-- constraint, and no ledger row has the transfer's id or its idempotency key.
pub settle-ok :
    (m : Movement) (db : Db) (p q : ℕ)
    → Books db
    → length db.users * seed_balance_paisa < i64_limit
    → balance_of m.payer db ≡ some p
    → balance_of m.payee db ≡ some q
    → m.amount ≤ p
    → transfer_allowed (completed_transfer m) db ≡ true
    → Unposted m db.ledger
    → settle m db ≡ ok (tt, settled m (p - m.amount) (q + m.amount) db)
unfolding settle transfer_allowed
settle-ok m db p q b fits hp hq covered t u =
    let other : m.payer ≢ m.payee = ground (arith, t) in
    let room = amounts-le-total m.payer m.payee p q db.balances other hp hq in
    let sum : i64_add q m.amount ≡ q + m.amount = ground (arith, room, covered, fits, b.funded) in
    let w =
      write_movement-ok m (p - m.amount) (i64_add q m.amount) db
        (ground (arith, room, fits, b.funded)) (ground (arith, sum, room, covered, fits, b.funded))
        t u in
    ground (arith, read_balances-ok m db p q other hp hq, covered, w, sum)
