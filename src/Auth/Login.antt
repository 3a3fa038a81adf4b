-- ===== src/Auth/Login.antt =====
-- features/auth/service.rs: `login_user`, and the sessions that it opens.
pub mod Lockout
use Prim.Native.String.{String}
use pstu_backend.Prelude.{
  ℕ, Uuid, Instant, Text, Bool, true, false, not, Option, none, some, [], ◌∷◌, leb, unwrap_or,
  if◌then◌else◌, text_eq, first_row,
}
use pstu_backend.Core.Error.{AppError}
use pstu_backend.Core.Limits.{max_login_failures, lockout_seconds}
use pstu_backend.Core.Services.{Services, Key}
use pstu_backend.Core.Text.{trim, to_text}
use pstu_backend.Core.App.{
  Action, pure, raise, raise_if, ok_or_raise, query, command, update_db, update_cache, ◌>>=◌, ◌>>◌,
}
use pstu_backend.Core.Pin.{count_up}
use pstu_backend.Store.Schema.{
  Db, UserRow, UserStatus, active, suspended, locked, EntityType, EventName, MetaValue,
  ProcessEventRow,
}
use pstu_backend.Store.Statements.{balance_of}
use pstu_backend.Store.Tx.{⊤}
use pstu_backend.Store.Events.{event_row, log_event}

pub record LoginRequest : Type 0 where
  pub phone : Text
  pub password : Text

pub record UserDto : Type 0 where
  pub id : Uuid
  pub account_number : Text
  pub name : Text
  pub phone : Text
  pub created_at : Instant

pub record LoginResponse : Type 0 where
  pub user : UserDto
  pub balance : Text

-- The cookie `sid` that an answer sets: its value and its age in seconds. The cookie's path and
-- flags, which no handler reads, are left out.
pub record Cookie : Type 0 where
  pub value : Text
  pub max_age : ℕ

abbrev with_balance : UserRow → Option ℕ → Option (UserRow × ℕ)
with_balance r none = none
with_balance r (some b) = some (r, b)

abbrev joined : Option UserRow → Db → Option (UserRow × ℕ)
joined none db = none
joined (some r) db = with_balance r (balance_of r.id db)

-- `SELECT … FROM users u JOIN balances b ON b.user_id = u.id WHERE u.phone = $1`
unfoldable pub find_login : Text → Db → Option (UserRow × ℕ)
find_login phone db = joined (first_row (λ (r : UserRow). text_eq r.phone phone) db.users) db

abbrev pub is_active : UserStatus → Bool
is_active active = true
is_active suspended = false
is_active locked = false

abbrev pub login_failed_event : Uuid → ℕ → Instant → ProcessEventRow
login_failed_event u new_failures now =
    event_row EntityType.auth u EventName.login_failed (some u)
      "Failed login attempt (incorrect password)"
      (("failure_count", MetaValue.number new_failures) ∷ []) now

abbrev pub login_success_event : Uuid → Instant → ProcessEventRow
login_success_event u now =
    event_row EntityType.auth u EventName.login_success (some u) "Successful user login" [] now

abbrev pub login_locked : AppError
login_locked =
    AppError.rate_limited
      "Account temporarily locked due to too many failed attempts. Please try again in 15 minutes."

abbrev pub login_response : UserRow → ℕ → LoginResponse
login_response r balance = record {
  user = record {
    id = r.id;
    account_number = r.account_number;
    name = r.name;
    phone = r.phone;
    created_at = r.created_at;
  };
  balance = to_text balance;
}

module _ (S : Services) where
  open S use {Cache, get, expire, del, set_ex, sadd, verify_password, print_uuid}

  -- A failure is counted for the phone number, known or not.
  unfoldable pub count_failure : Text → Action Cache ℕ
  count_failure phone = do
    new_failures ← count_up S (Key.login_failures phone) 1 1
    update_cache (expire (Key.login_failures phone) lockout_seconds)
    pure new_failures

  abbrev pub refuse_login : {A : Type 0} → ℕ → Action Cache A
  refuse_login new_failures = do
    raise_if (leb max_login_failures new_failures) login_locked
    raise (AppError.unauthorized "Invalid phone number or password")

  -- The branch of an unknown phone number.
  unfoldable pub unknown_phone : {A : Type 0} → Text → Action Cache A
  unfolding count_failure
  unknown_phone phone = do new_failures ← count_failure phone; refuse_login new_failures

  -- The branch of a wrong password.
  unfoldable pub wrong_password : {A : Type 0} → Text → Uuid → Instant → Action Cache A
  unfolding count_failure
  wrong_password phone user_id now = do
    new_failures ← count_failure phone
    update_db (log_event (login_failed_event user_id new_failures now))
    refuse_login new_failures

  -- The token stands for the source's `generate_session_token()`, the lifetime for the
  -- configuration's `session_ttl_secs`.
  unfoldable pub open_session : Text → ℕ → Text → Uuid → Instant → Action Cache ⊤
  open_session token session_ttl_secs phone user_id now = do
    update_cache (del (Key.login_failures phone))
    update_cache (set_ex (Key.session token) (print_uuid user_id) session_ttl_secs)
    update_cache (sadd (Key.user_sessions user_id) token)
    update_db (log_event (login_success_event user_id now))

  unfoldable pub login_known :
      Text → ℕ → LoginRequest → Instant → UserRow × ℕ → Action Cache (LoginResponse × Cookie)
  unfolding wrong_password open_session
  login_known token session_ttl_secs req now (r, balance) = do
    raise_if (not (is_active r.status)) (AppError.forbidden "Account is suspended or locked")
    password_ok ←
        ok_or_raise (AppError.internal "Invalid password hash format")
          (verify_password req.password r.password_hash)
    if password_ok
        then open_session token session_ttl_secs (trim req.phone) r.id now
          >> pure (login_response r balance, record { value = token; max_age = session_ttl_secs })
        else wrong_password (trim req.phone) r.id now

  -- `login_user`, with the cookie that it adds.
  unfoldable pub login_user :
      Text → ℕ → LoginRequest → Instant → Action Cache (LoginResponse × Cookie)
  unfolding unknown_phone login_known
  login_user token session_ttl_secs req now = do
    let phone = trim req.phone
    failures ← command λ c. (unwrap_or 0 (get (Key.login_failures phone) c), c)
    raise_if (leb max_login_failures failures) login_locked
    found ← query (find_login phone)
    elim found [
      | none ↦ unknown_phone phone
      | some r ↦ login_known token session_ttl_secs req now r
    ]
