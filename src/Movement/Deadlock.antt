-- ===== src/Movement/Deadlock.antt =====
-- The row locks of the transactions that move money, taken one at a time by transactions that run at
-- the same time: features/transfers/service.rs, features/requests/service.rs and
-- features/links/service.rs. A row is locked by `SELECT … FOR UPDATE`, and held to the end of the
-- transaction; two balances are locked in the order of their ids.
pub mod Ordered
pub mod Last
pub mod Free
use pstu_backend.Prelude.{
  ℕ, ◌≡◌, ◌≢◌, ◌∙◌, ap, refl, arith, Uuid, Bool, true, false, not, ◌&&◌, ◌||◌, Option, none, some,
  List, [], ◌∷◌, ◌++◌, ltb, ◌==◌, if◌then◌else◌, Bool-cases, inl, inr, ◌⊎◌,
}
use pstu_backend.Movement.{lock_order}

-- The rows that are locked: of money_requests, payment_links and balances.
pub data Row : Type 0 where
  request link balance : Uuid → Row

abbrev pub class : Row → ℕ
class (request id) = 0
class (link id) = 1
class (balance id) = 2

abbrev pub id_of : Row → ℕ
id_of (request id) = id
id_of (link id) = id
id_of (balance id) = id

abbrev pub same_row : Row → Row → Bool
same_row r q = class r == class q && id_of r == id_of q

-- Requests and links come before balances, and among these the smaller id.
abbrev pub before : Row → Row → Bool
before r q = ltb (class r) (class q) || (class r == class q && ltb (id_of r) (id_of q))

abbrev balance_rows : Uuid × Uuid → List Row
balance_rows (a, b) = if a == b then balance a ∷ [] else balance a ∷ balance b ∷ []

-- The transactions by the rows that they lock.
pub data Locking : Type 0 where
  pay_transfer : Uuid → Uuid → Locking
  pay_request : Uuid → Uuid → Uuid → Locking
  close_request : Uuid → Locking
  pay_link : Uuid → Uuid → Uuid → Locking
  close_link : Uuid → Locking

-- The rows of a transaction in the order of its statements: the payer's and the payee's balance, as
-- `lock_order` has them, after the request or the link.
abbrev pub rows : Locking → List Row
rows (pay_transfer payer payee) = balance_rows (lock_order payer payee)
rows (pay_request id payer payee) = request id ∷ balance_rows (lock_order payer payee)
rows (close_request id) = request id ∷ []
rows (pay_link id payer payee) = link id ∷ balance_rows (lock_order payer payee)
rows (close_link id) = link id ∷ []

-- A transaction that runs: the rows that it holds, and those that it has still to lock.
pub record Worker : Type 0 where
  pub held : List Row
  pub todo : List Row

abbrev pub starting : Locking → Worker
starting l = record { held = []; todo = rows l }

abbrev pub has_row : Row → List Row → Bool
has_row r [] = false
has_row r (q ∷ qs) = same_row r q || has_row r qs

abbrev pub is_locked : List Worker → Row → Bool
is_locked [] r = false
is_locked (w ∷ ws) r = has_row r w.held || is_locked ws r

-- One transaction locks its next row, which no one holds, or commits with all its rows locked.
pub data Advance (locked : Row → Bool) : List Worker → List Worker → Type 0 where
  lock :
      (held : List Row) (r : Row) (todo : List Row) (ws : List Worker)
      → locked r ≡ false
      → Advance locked
          (record { held = held; todo = r ∷ todo } ∷ ws)
          (record { held = r ∷ held; todo = todo } ∷ ws)
  commit :
      (held : List Row) (ws : List Worker)
      → Advance locked (record { held = held; todo = [] } ∷ ws) ws
  another :
      (w : Worker) (ws ws' : List Worker)
      → Advance locked ws ws'
      → Advance locked (w ∷ ws) (w ∷ ws')

-- A transaction that ends early, by a rollback or before its other locks.
pub data Leaves : List Worker → List Worker → Type 0 where
  leave : (w : Worker) (ws : List Worker) → Leaves (w ∷ ws) ws
  another : (w : Worker) (ws ws' : List Worker) → Leaves ws ws' → Leaves (w ∷ ws) (w ∷ ws')

-- The transactions that run at a time.
pub data Running : List Worker → Type 0 where
  idle : Running []
  begin : (l : Locking) (ws : List Worker) → Running ws → Running (starting l ∷ ws)
  advance : (ws ws' : List Worker) → Running ws → Advance (is_locked ws) ws ws' → Running ws'
  end_early : (ws ws' : List Worker) → Running ws → Leaves ws ws' → Running ws'

-- The transactions come to their end one lock or commit after another, with no other beginning.
pub data Drains : List Worker → Type 0 where
  drained : Drains []
  one_step : (ws ws' : List Worker) → Advance (is_locked ws) ws ws' → Drains ws' → Drains ws
