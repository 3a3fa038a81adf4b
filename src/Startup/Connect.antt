-- ===== src/Startup/Connect.antt =====
-- main.rs: the server's start, on what its environment answers.
use pstu_backend.Prelude.{
  ℕ, zero, suc, ◌+◌, ◌<◌, ◌≡◌, ◌∙◌, ap, refl, arith, Text, Option, none, some, ◌∷◌, ◌++◌, inl, inr,
  ◌⊎◌, Option-cases,
}
use pstu_backend.Core.Config.{AppConfig, load_from_env}
use pstu_backend.Core.Text.{to_text}

-- The attempts that are left in `for attempt in 1..=15`, from one on: a failed one is followed by a
-- pause of 800 ms and the next.
unfoldable pub attempts_from : {A : Type 0} → (ℕ → Option A) → ℕ → ℕ → Option A
attempts_from connect attempt zero = none
attempts_from connect attempt (suc left) =
    let later = attempts_from connect (attempt + 1) left in
    elim (connect attempt) [ some a ↦ some a | none ↦ later ]

-- The whole loop; `none` is the error of the last attempt.
unfoldable pub connect_retrying : {A : Type 0} → (ℕ → Option A) → Option A
unfolding attempts_from
connect_retrying connect = attempts_from connect 1 15

pub data StartError : Type 0 where
  bad_configuration no_database migration_failed bad_redis_url no_redis bad_address no_listener :
      StartError

-- What `main` asks of its environment, by the attempt where it retries.
pub record Outside : Type 1 where
  pub Pool : Type 0
  pub Client : Type 0
  pub Connection : Type 0
  pub Nats : Type 0
  pub Address : Type 0
  pub Listener : Type 0
  pub vars : Text → Option Text
  pub connect_database : Text → ℕ → Option Pool
  pub migrate : Pool → Option (Unit {0})
  pub open_redis : Text → Option Client
  pub connect_redis : Client → ℕ → Option Connection
  pub connect_nats : Text → Option Nats
  pub parse_address : Text → Option Address
  pub bind : Address → Option Listener

-- The parts of the server's state, and where it listens.
pub record Started (O : Outside) : Type 0 where
  pub config : AppConfig
  pub db : O.Pool
  pub redis : O.Connection
  pub nats : Option O.Nats
  pub listener : O.Listener

-- `Result<_, Box<dyn Error>>`
pub data Attempted (A : Type 0) : Type 0 where
  done : A → Attempted A
  failed : StartError → Attempted A

infixl 5 ◌>>=◌
abbrev ◌>>=◌ : {A B : Type 0} → Attempted A → (A → Attempted B) → Attempted B
done a >>= f = f a
failed e >>= f = failed e

abbrev or_fail : {A : Type 0} → StartError → Option A → Attempted A
or_fail e none = failed e
or_fail e (some a) = done a

module _ (O : Outside) where
  -- `main`, up to where it serves. A missing NATS does not stop it.
  unfoldable pub start_up : Attempted (Started O)
  unfolding connect_retrying load_from_env
  start_up = do
    config ← or_fail bad_configuration (load_from_env O.vars)
    db ← or_fail no_database (connect_retrying (O.connect_database config.database_url))
    migrated ← or_fail migration_failed (O.migrate db)
    client ← or_fail bad_redis_url (O.open_redis config.redis_url)
    redis_conn ← or_fail no_redis (connect_retrying (O.connect_redis client))
    let nats = O.connect_nats config.nats_url
    socket ← or_fail bad_address (O.parse_address (config.host ++ b':' ∷ to_text config.port))
    listener ← or_fail no_listener (O.bind socket)
    done (record { config = config; db = db; redis = redis_conn; nats = nats; listener = listener })

-- None of the attempts from one on, as many as a number, succeeds.
abbrev pub AllFail : {A : Type 0} → (ℕ → Option A) → ℕ → ℕ → Type 0
AllFail connect attempt zero = Unit {0}
AllFail connect attempt (suc left) = (connect attempt ≡ none) × AllFail connect (attempt + 1) left

-- A number of attempts from one on fails, and the next one succeeds.
pub record First {A : Type 0} (connect : ℕ → Option A) (attempt left : ℕ) (a : A) : Type 0 where
  pub before : ℕ
  pub few : before < left
  pub failing : AllFail connect attempt before
  pub succeeds : connect (attempt + before) ≡ some a

module _ {A : Type 0} (connect : ℕ → Option A) where
  attempts_from-First :
      (attempt left : ℕ)
      → ((attempts_from connect attempt left ≡ none) × AllFail connect attempt left)
        ⊎ ((a : A) × (attempts_from connect attempt left ≡ some a) × First connect attempt left a)
  unfolding attempts_from
  attempts_from-First attempt zero = inl (refl, tt)
  attempts_from-First attempt (suc left) = elim (Option-cases (connect attempt)) [
    | inl down ↦ elim (attempts_from-First (attempt + 1) left) [
      | inl (stopped, all) ↦ inl (ground (arith, down, stopped), (down, all))
      | inr (a, found, f) ↦ inr (
        a,
        ground (arith, down, found),
        record {
          before = suc f.before;
          few = ground (arith, f.few);
          failing = (down, f.failing);
          succeeds = ap connect (omega arith) ∙ f.succeeds;
        },
      )
    ]
    | inr (a, up) ↦ inr (
      a,
      ground (arith, up),
      record { before = 0; few = omega arith; failing = tt; succeeds = ground (arith, up) },
    )
  ]

  -- The loop fails just when all of its 15 attempts fail; otherwise it gives what the first attempt that
  -- succeeds gives.
  pub connect_retrying-First :
      ((connect_retrying connect ≡ none) × AllFail connect 1 15)
      ⊎ ((a : A) × (connect_retrying connect ≡ some a) × First connect 1 15 a)
  unfolding connect_retrying
  connect_retrying-First = attempts_from-First 1 15
