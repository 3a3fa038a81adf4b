-- ===== src/Store/Tx.antt =====
-- SQL transactions. A body reads and writes its own copy of the tables; `COMMIT` keeps the copy,
-- and any error before it drops the copy. A statement that violates a constraint of the schema ends
-- the body with a database error.
use pstu_backend.Prelude.{◌≡◌, refl, Bool, true, Option, none, some, arith, if◌then◌else◌}
use pstu_backend.Core.Error.{AppError, Result, ok, err}
use pstu_backend.Store.Schema.{Db}

abbrev pub ⊤ : Type 0
⊤ = Unit

abbrev pub Tx : Type 0 → Type 0
Tx A = Db → Result (A × Db)

module _ {A : Type 0} where
  abbrev pub pure : A → Tx A
  pure a db = ok (a, db)

  -- An early `return Err(e)`.
  abbrev pub fail : AppError → Tx A
  fail e db = err e

  -- A query: it reads and changes nothing.
  abbrev pub select : (Db → A) → Tx A
  select f db = ok (f db, db)

  abbrev pub ok_or_fail : AppError → Option A → Tx A
  ok_or_fail e none = fail e
  ok_or_fail e (some a) = pure a

-- What follows a statement: the next one, or the error that ends the body.
abbrev pub continue : {A B : Type 0} → Result (A × Db) → (A → Tx B) → Result (B × Db)
continue (ok (a, db)) f = f a db
continue (err e) f = err e

infixl 5 ◌>>=◌ ◌>>◌
abbrev pub ◌>>=◌ : {A B : Type 0} → Tx A → (A → Tx B) → Tx B
◌>>=◌ m f db = continue (m db) f

abbrev pub ◌>>◌ : {B : Type 0} → Tx ⊤ → Tx B → Tx B
m >> k = m >>= λ _. k

-- `if c { return Err(e) }`
abbrev pub fail_if : Bool → AppError → Tx ⊤
fail_if c e db = if c then err e else ok (tt, db)

-- A statement that writes: under the constraints of its table, or with a database error.
abbrev pub write : (Db → Bool) → (Db → Db) → Tx ⊤
write allowed f db = if allowed db then ok (tt, f db) else err AppError.database

-- The end of a body that began at `db`: `COMMIT`, or the rollback.
abbrev pub finish : {A : Type 0} → Result (A × Db) → Db → Result A × Db
finish (ok (a, db')) db = (ok a, db')
finish (err e) db = (err e, db)

-- `BEGIN … COMMIT`, and the rollback of a body that fails.
abbrev pub run_tx : {A : Type 0} → Tx A → Db → Result A × Db
run_tx m db = finish (m db) db

continue-eq-ok :
    {A B : Type 0} (r : Result (A × Db)) (f : A → Tx B) {b : B} {db'' : Db}
    → continue r f ≡ ok (b, db'')
    → (a : A) × (db' : Db) × (r ≡ ok (a, db')) × (f a db' ≡ ok (b, db''))
continue-eq-ok (ok (a, db')) f h = (a, db', refl, h)
continue-eq-ok (err e) f h = cc

-- Inversion of a body that succeeds.
pub >>=-eq-ok :
    {A B : Type 0} (m : Tx A) (f : A → Tx B) (db : Db) {b : B} {db'' : Db}
    → (m >>= f) db ≡ ok (b, db'')
    → (a : A) × (db' : Db) × (m db ≡ ok (a, db')) × (f a db' ≡ ok (b, db''))
>>=-eq-ok m f db h = continue-eq-ok (m db) f h

pub write-eq-ok :
    (allowed : Db → Bool) (f : Db → Db) (db db' : Db) {u : ⊤}
    → write allowed f db ≡ ok (u, db')
    → (allowed db ≡ true) × (db' ≡ f db)
write-eq-ok allowed f db db' h = ground arith

-- A transaction keeps what each of its commits establishes and a rollback leaves.
pub run_tx_keeps :
    {A : Type 0} (P : Db → Type 0) (m : Tx A) (db : Db)
    → P db
    → ((a : A) (db' : Db) → m db ≡ ok (a, db') → P db')
    → P (run_tx m db).1
run_tx_keeps {A} P m db p k = go (m db) refl
  where
    go : (r : Result (A × Db)) → m db ≡ r → P (finish r db).1
    go (ok (a, db')) e = k a db' e
    go (err x) e = p
