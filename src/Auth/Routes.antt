-- ===== src/Auth/Routes.antt =====
-- features/auth/routes.rs
use Prim.Native.String.{String}
use pstu_backend.Prelude.{ℕ, Uuid, Instant, Text}
use pstu_backend.Core.Services.{Services}
use pstu_backend.Core.App.{Action, pure, ◌>>=◌, ◌>>◌}
use pstu_backend.Auth.Dto.{RegisterRequest, RegisterResponse, FreshAccount}
use pstu_backend.Auth.Register.{register_user}
use pstu_backend.Auth.Login.{LoginRequest, LoginResponse, Cookie, login_user}
use pstu_backend.Auth.PinChange.{PinChangeReq, change_pin}
use pstu_backend.Auth.Sessions.{Parts, PinResetReq, authenticate, logout_user, reset_pin}
use pstu_backend.Store.Tx.{⊤}
use pstu_backend.Http.{Reply, ApiResponse, raise_invalid, refuse_invalid, answer, api_response}
use pstu_backend.Http.Validate
use pstu_backend.Http.Validate.{Problems}

module _ (S : Services) (report : Problems → String) where
  open S use {Cache, is_digit}

  unfoldable pub register_handler :
      RegisterRequest → FreshAccount → Uuid → Action Cache (Reply (ApiResponse RegisterResponse))
  register_handler payload f trace = do
    raise_invalid "Validation failed on user registration"
        (Validate.register_request is_digit payload)
    res ← register_user S payload f
    answer S 201 trace res

  -- The answer comes with the cookie that it sets.
  unfoldable pub login_handler :
      ℕ
      → LoginRequest
      → Text
      → Instant
      → Uuid
      → Action Cache (Reply (ApiResponse LoginResponse × Cookie))
  login_handler session_ttl_secs payload token now trace = do
    raise_invalid "Validation failed on login" (Validate.login_request is_digit payload)
    res ← login_user S token session_ttl_secs payload now
    pure (record { status = 200; body = (api_response S trace res.0, res.1) })

  unfoldable pub logout_handler : Parts → Instant → Uuid → Action Cache (Reply (ApiResponse ⊤))
  logout_handler parts now trace = do
    auth_user ← authenticate S parts
    res ← logout_user S auth_user.user_id parts.cookies now
    answer S 200 trace res

  unfoldable pub change_pin_handler :
      Parts → PinChangeReq → Instant → Uuid → Action Cache (Reply (ApiResponse Instant))
  change_pin_handler parts payload now trace = do
    auth_user ← authenticate S parts
    refuse_invalid report (Validate.pin_change is_digit payload)
    res ← change_pin S auth_user.user_id payload now
    answer S 200 trace res

  unfoldable pub reset_pin_handler :
      Parts → PinResetReq → Instant → Uuid → Action Cache (Reply (ApiResponse Instant))
  reset_pin_handler parts payload now trace = do
    auth_user ← authenticate S parts
    refuse_invalid report (Validate.pin_reset is_digit payload)
    res ← reset_pin S auth_user.user_id payload parts.cookies now
    answer S 200 trace res
