-- ===== src/Books/Balances.antt =====
-- The table of balances under the statement that updates a row.
use mathlib.Core.Option
use pstu_backend.Prelude.{
  ℕ, ◌+◌, ◌≤◌, ◌≡◌, ◌≢◌, refl, Option, none, some, List, [], ◌∷◌, map, arith, ◌==◌, if◌then◌else◌,
  Uuid, Instant,
}
use pstu_backend.Store.Schema.{BalanceRow}
use pstu_backend.Store.Statements.{find_balance, set_balance}

abbrev pub amount_in : Uuid → List BalanceRow → Option ℕ
amount_in u rows = Option.map (λ (r : BalanceRow). r.amount_paisa) (find_balance u rows)

-- `SUM(amount_paisa)`
abbrev pub total : List BalanceRow → ℕ
total [] = 0
total (r ∷ rows) = r.amount_paisa + total rows

abbrev pub owners : List BalanceRow → List Uuid
owners rows = map (λ (r : BalanceRow). r.user_id) rows

-- The primary key: no user has two rows.
abbrev pub IsKeyed : List BalanceRow → Type 0
IsKeyed [] = Unit {0}
IsKeyed (r ∷ rows) = (find_balance r.user_id rows ≡ none) × IsKeyed rows

pub amount_in-set :
    (j u : Uuid) (v : ℕ) (now : Instant) (rows : List BalanceRow)
    → amount_in j (set_balance u v now rows)
      ≡ (if j == u then Option.map (λ _. v) (amount_in u rows) else amount_in j rows)
amount_in-set j u v now [] = ground arith
amount_in-set j u v now (r ∷ rows) = ground (arith, amount_in-set j u v now rows)

find-set_none :
    (j u : Uuid) (v : ℕ) (now : Instant) (rows : List BalanceRow)
    → find_balance j rows ≡ none
    → find_balance j (set_balance u v now rows) ≡ none
find-set_none j u v now [] h = refl
find-set_none j u v now (r ∷ rows) h = ground (arith, find-set_none j u v now rows)

pub set-IsKeyed :
    (u : Uuid) (v : ℕ) (now : Instant) (rows : List BalanceRow)
    → IsKeyed rows
    → IsKeyed (set_balance u v now rows)
set-IsKeyed u v now [] k = tt
set-IsKeyed u v now (r ∷ rows) k =
    ground (arith, find-set_none r.user_id u v now rows k.0, set-IsKeyed u v now rows k.1)

pub owners-set :
    (u : Uuid) (v : ℕ) (now : Instant) (rows : List BalanceRow)
    → owners (set_balance u v now rows) ≡ owners rows
owners-set u v now [] = refl
owners-set u v now (r ∷ rows) = ground (arith, owners-set u v now rows)

total-set_absent :
    (u : Uuid) (v : ℕ) (now : Instant) (rows : List BalanceRow)
    → find_balance u rows ≡ none
    → total (set_balance u v now rows) ≡ total rows
total-set_absent u v now [] h = refl
total-set_absent u v now (r ∷ rows) h = ground (arith, total-set_absent u v now rows)

pub total-set :
    (u : Uuid) (v : ℕ) (old : ℕ) (now : Instant) (rows : List BalanceRow)
    → IsKeyed rows
    → amount_in u rows ≡ some old
    → total (set_balance u v now rows) + old ≡ total rows + v
total-set u v old now [] k e = cc
total-set u v old now (r ∷ rows) k e =
    ground (arith, k.0, total-set_absent u v now rows, total-set u v old now rows k.1)

pub amount-le-total :
    (u : Uuid) (b : ℕ) (rows : List BalanceRow) → amount_in u rows ≡ some b → b ≤ total rows
amount-le-total u b [] e = cc
amount-le-total u b (r ∷ rows) e = ground (arith, amount-le-total u b rows)

-- Payer and payee are two rows, so their balances together are part of the total.
pub amounts-le-total :
    (u w : Uuid) (a b : ℕ) (rows : List BalanceRow)
    → u ≢ w
    → amount_in u rows ≡ some a
    → amount_in w rows ≡ some b
    → a + b ≤ total rows
amounts-le-total u w a b [] ne e f = cc
amounts-le-total u w a b (r ∷ rows) ne e f =
    ground
      (arith, amount-le-total u a rows, amount-le-total w b rows, amounts-le-total u w a b rows ne)
