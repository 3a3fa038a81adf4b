-- ===== src/Auth/Sessions.antt =====
-- features/auth/middleware.rs, and of features/auth/service.rs `logout_user` and `reset_pin`.
pub mod Opened
pub mod Revoked
pub mod Kept
use Prim.Native.String.{String}
use pstu_backend.Prelude.{
  ℕ, Uuid, Instant, Text, Bool, true, false, Option, none, some, List, [], ◌∷◌, unwrap_or,
  if◌then◌else◌, not, text_eq,
}
use mathlib.Core.Option
use pstu_backend.Core.Error.{AppError}
use pstu_backend.Core.Services.{Services, Key}
use pstu_backend.Core.Text.{codes, trim, strip_prefix}
use pstu_backend.Core.App.{
  Action, pure, raise_if, ok_or_raise, query, command, update_db, update_cache, ◌>>=◌, ◌>>◌,
}
use pstu_backend.Store.Schema.{Db, UserRow, EntityType, EventName, ProcessEventRow}
use pstu_backend.Store.Statements.{find_user}
use pstu_backend.Store.Tx.{⊤}
use pstu_backend.Store.Events.{event_row, log_event}
use pstu_backend.Auth.PinChange.{update_pin}

-- The cookies of a request that the source reads.
pub record Cookies : Type 0 where
  pub sid : Option Text
  pub pstu_session : Option Text

-- The parts of a request that the source reads: the header `Authorization`, if it is text, and the
-- cookies.
pub record Parts : Type 0 where
  pub authorization : Option Text
  pub cookies : Cookies

pub record AuthenticatedUser : Type 0 where
  pub user_id : Uuid
  pub session_token : Text

pub record PinResetReq : Type 0 where
  pub password : Text
  pub new_pin : Text

abbrev or_else : Option Text → Option Text → Option Text
or_else none b = b
or_else (some t) b = some t

abbrev bearer : Option Text → Option Text
bearer none = none
bearer (some h) = Option.map trim (strip_prefix (codes "Bearer ") h)

-- `bearer_token.or(cookie_token)`
unfoldable pub request_token : Parts → Option Text
unfolding strip_prefix
request_token parts =
    or_else (bearer parts.authorization) (or_else parts.cookies.sid parts.cookies.pstu_session)

abbrev pub is_blank : Text → Bool
is_blank t = text_eq (trim t) []

abbrev is_current : Option Text → Text → Bool
is_current none t = false
is_current (some sid) t = text_eq t sid

abbrev pub logout_event : Uuid → Instant → ProcessEventRow
logout_event u now = event_row EntityType.auth u EventName.logout (some u) "User logged out" [] now

abbrev pub pin_reset_event : Uuid → Instant → ProcessEventRow
pin_reset_event u now =
    event_row EntityType.auth u EventName.pin_reset (some u)
      "Transaction PIN reset via password; secondary sessions invalidated" [] now

module _ (S : Services) where
  open S use {Cache, del, srem, smembers, get_text, parse_uuid, hash_password, verify_password}

  -- `AuthenticatedUser::from_request_parts`
  unfoldable pub authenticate : Parts → Action Cache AuthenticatedUser
  authenticate parts = do
    token ← ok_or_raise (AppError.unauthorized "Authentication required") (request_token parts)
    raise_if (is_blank token) (AppError.unauthorized "Authentication required")
    reply ← command λ c. (get_text (Key.session token) c, c)
    stored ←
        ok_or_raise (AppError.service_unavailable "Session cache temporarily unavailable") reply
    user_id_str ← ok_or_raise (AppError.unauthorized "Session expired or invalid") stored
    user_id ← ok_or_raise (AppError.unauthorized "Malformed session state") (parse_uuid user_id_str)
    pure (record { user_id = user_id; session_token = token })

  -- `DEL` of a session, and `SREM` of its token from the user's set.
  abbrev pub end_session : Uuid → Text → Cache → Cache
  end_session user_id token c = srem (Key.user_sessions user_id) token (del (Key.session token) c)

  abbrev pub end_cookie_session : Uuid → Option Text → Cache → Cache
  end_cookie_session user_id none c = c
  end_cookie_session user_id (some token) c = end_session user_id token c

  -- `logout_user`. The answer is `ok: true`; the cookie that it clears is left out.
  unfoldable pub logout_user : Uuid → Cookies → Instant → Action Cache ⊤
  logout_user user_id cookies now = do
    update_cache (end_cookie_session user_id cookies.sid)
    update_db (log_event (logout_event user_id now))

  -- The loop over the tokens that `SMEMBERS` answers.
  abbrev pub end_others : Uuid → Option Text → List Text → Cache → Cache
  end_others user_id current [] c = c
  end_others user_id current (t ∷ ts) c =
      end_others user_id current ts (if is_current current t then c else end_session user_id t c)

  -- `reset_pin`. The answer is its `pin_updated_at`; the mail that it sends is left out.
  unfoldable pub reset_pin : Uuid → PinResetReq → Cookies → Instant → Action Cache Instant
  reset_pin user_id req cookies now = do
    found ← query λ db. Option.map (λ (r : UserRow). r.password_hash) (find_user user_id db.users)
    pass_hash ← ok_or_raise (AppError.not_found "User not found") found
    pass_ok ←
        ok_or_raise (AppError.internal "Invalid password hash format")
          (verify_password req.password pass_hash)
    raise_if (not pass_ok) (AppError.unauthorized "Incorrect login password for PIN reset")
    new_pin_hash ← ok_or_raise (AppError.internal "Failed to hash PIN") (hash_password req.new_pin)
    update_db (update_pin user_id new_pin_hash now)
    all_sids ← command λ c. (unwrap_or [] (smembers (Key.user_sessions user_id) c), c)
    update_cache (end_others user_id cookies.sid all_sids)
    update_db (log_event (pin_reset_event user_id now))
    pure now
