-- ===== src/Core/App/Keeps.antt =====
-- Handlers that keep a property of the tables, however they end, step by step.
use pstu_backend.Prelude.{
  ◌≡◌, refl, ◌⊎◌, inl, inr, if◌then◌else◌, Bool, true, false, Option, none, some,
}
use pstu_backend.Core.Error.{AppError, Result, ok, err}
use pstu_backend.Core.App.{AppState, Action, continue, lift, ok_or_raise, transaction, ◌>>=◌}
use pstu_backend.Store.Schema.{Db}
use pstu_backend.Store.Tx.{Tx, run_tx_keeps}

module _ {C : Type 0} (P : Db → Type 0) where
  abbrev pub Keeps : {A : Type 0} → Action C A → Type 0
  Keeps m = (s : AppState C) → P s.db → P (m s).1.db

  continue-Keeps :
      {A B : Type 0} (r : Result A) (f : A → Action C B)
      → ((a : A) → Keeps (f a))
      → (s : AppState C) → P s.db
      → P (continue r s f).1.db
  continue-Keeps (ok a) f k s p = k a s p
  continue-Keeps (err e) f k s p = p

  pub >>=-Keeps :
      {A B : Type 0} (m : Action C A) (f : A → Action C B)
      → Keeps m
      → ((a : A) → Keeps (f a))
      → Keeps (m >>= f)
  >>=-Keeps m f h k s p = continue-Keeps (m s).0 f k (m s).1 (h s p)

  pub ok_or_raise-Keeps :
      {A : Type 0} (e : AppError) (o : Option A) → Keeps (ok_or_raise {C = C} e o)
  ok_or_raise-Keeps e none s p = p
  ok_or_raise-Keeps e (some a) s p = p

  -- A transaction keeps what each of its commits establishes.
  pub transaction-Keeps :
      {A : Type 0} (m : Tx A)
      → ((db : Db) → P db → (a : A) (db' : Db) → m db ≡ ok (a, db') → P db')
      → Keeps (transaction {C = C} m)
  transaction-Keeps m k s p = run_tx_keeps P m s.db p (k s.db p)

  pub if-Keeps :
      {A : Type 0} (c : Bool) (m n : Action C A) → Keeps m → Keeps n → Keeps (if c then m else n)
  if-Keeps true m n h k = h
  if-Keeps false m n h k = k

  pub Option-Keeps :
      {A B : Type 0} (o : Option A) (m : Action C B) (n : A → Action C B)
      → Keeps m
      → ((a : A) → Keeps (n a))
      → Keeps (elim o [ none ↦ m | some a ↦ n a ])
  Option-Keeps none m n h k = h
  Option-Keeps (some a) m n h k = k a

  -- A transaction whose answer is worked out of what it returns.
  pub answer-Keeps :
      {A B : Type 0} (m : Tx A) (g : A → Result B)
      → ((db : Db) → P db → (a : A) (db' : Db) → m db ≡ ok (a, db') → P db')
      → Keeps (transaction {C = C} m >>= λ a. lift (g a))
  answer-Keeps m g k =
      >>=-Keeps (transaction m) (λ a. lift (g a)) (transaction-Keeps m k) (λ a s p. p)

-- A transaction commits or fails.
pub run-cases :
    {A : Type 0} (m : Tx A) (db : Db)
    → ((a : A) × (db' : Db) × (m db ≡ ok (a, db'))) ⊎ ((e : AppError) × (m db ≡ err e))
run-cases {A} m db = go (m db) refl
  where
    go :
        (r : Result (A × Db))
        → m db ≡ r
        → ((a : A) × (db' : Db) × (m db ≡ ok (a, db'))) ⊎ ((e : AppError) × (m db ≡ err e))
    go (ok (a, db')) h = inl (a, db', h)
    go (err e) h = inr (e, h)
