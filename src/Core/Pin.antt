-- ===== src/Core/Pin.antt =====
-- core/pin.rs: the check of the transaction PIN before money moves, with its lockout counter.
pub mod Keeps
pub mod Lockout
use pstu_backend.Prelude.{
  ℕ, ◌+◌, Uuid, Instant, Text, Bool, true, false, Option, none, some, List, [], ◌∷◌, leb, unwrap_or,
  if◌then◌else◌,
}
use pstu_backend.Core.Error.{AppError}
use pstu_backend.Core.Limits.{max_pin_failures, lockout_seconds}
use pstu_backend.Core.Services.{Services, Key}
use pstu_backend.Core.App.{
  AppState, Action, pure, raise, raise_if, ok_or_raise, query, command, update_db, update_cache,
  ◌>>=◌, ◌>>◌,
}
use pstu_backend.Store.Schema.{Db, UserRow, EntityType, EventName, MetaValue, ProcessEventRow}
use pstu_backend.Store.Statements.{find_user}
use pstu_backend.Store.Tx.{⊤}
use pstu_backend.Store.Events.{event_row, log_event}
use mathlib.Core.Option

abbrev pub pin_failed_event : Uuid → ℕ → Instant → ProcessEventRow
pin_failed_event user_id new_failures now =
    event_row EntityType.auth user_id EventName.pin_failed (some user_id)
      "Incorrect transaction PIN entered" (("failure_count", MetaValue.number new_failures) ∷ [])
      now

module _ (S : Services) where
  open S use {Cache, get, incr, expire, del, verify_password}

  -- `redis_conn.incr(&key, n).await.unwrap_or(default)`
  abbrev pub count_up : Key → ℕ → ℕ → Action Cache ℕ
  count_up k n default = command λ c. let (reply, c') = incr k n c in (unwrap_or default reply, c')

  -- The branch of a wrong PIN.
  unfoldable pub wrong_pin : Uuid → Instant → Action Cache ⊤
  wrong_pin user_id now = do
    new_failures ← count_up (Key.pin_failures user_id) 1 1
    update_cache (expire (Key.pin_failures user_id) lockout_seconds)
    update_db (log_event (pin_failed_event user_id new_failures now))
    raise_if (leb max_pin_failures new_failures) (
        AppError.rate_limited
          "Transaction PIN has been locked after 5 failed attempts. Please try again in 15 minutes.")
    raise (AppError.unprocessable "Transaction PIN is incorrect")

  -- `enforce_user_pin`
  unfoldable pub enforce_user_pin : Uuid → Text → Instant → Action Cache ⊤
  unfolding wrong_pin
  enforce_user_pin user_id provided_pin now = do
    failures ← command λ c. (unwrap_or 0 (get (Key.pin_failures user_id) c), c)
    raise_if (leb max_pin_failures failures) (
        AppError.rate_limited
          "Transaction PIN is locked due to multiple failed attempts. Please try again in 15 minutes.")
    found ← query λ db. Option.map (λ (r : UserRow). r.pin_hash) (find_user user_id db.users)
    pin_hash ← ok_or_raise (AppError.not_found "User not found") found
    is_valid ←
        ok_or_raise (AppError.internal "Invalid PIN hash format")
          (verify_password provided_pin pin_hash)
    if is_valid then update_cache (del (Key.pin_failures user_id)) else wrong_pin user_id now
