-- ===== src/System.antt =====
-- The handlers that change the tables or the sessions, as the routes of features/*/routes.rs run
-- them, one after another on one state: a request of any kind, by any user, with any input. Only the
-- state that a handler leaves is kept; its answer goes to the client.
pub mod Reconciles
pub mod Authorised
pub mod Private
pub mod Entitled
use pstu_backend.Prelude.{ℕ, Uuid, Instant, Text}
use pstu_backend.Core.Services.{Services}
use pstu_backend.Core.App.{AppState}
use pstu_backend.Store.Schema.{Db, empty_db}
use pstu_backend.Auth.Dto.{RegisterRequest, FreshAccount}
use pstu_backend.Auth.Register.{register_user}
use pstu_backend.Auth.PinChange.{PinChangeReq, change_pin}
use pstu_backend.Auth.Login.{LoginRequest, login_user}
use pstu_backend.Auth.Sessions.{Cookies, PinResetReq, logout_user, reset_pin}
use pstu_backend.Transfers.Dto.{CreateTransferRequest, Fresh}
use pstu_backend.Transfers.Service.{process_transfer}
use pstu_backend.Requests.Dto.{CreateMoneyRequest, AcceptMoneyRequest}
use pstu_backend.Requests.Service.{create_request, accept_request, reject_request, cancel_request}
use pstu_backend.Links.Dto.{CreatePaymentLinkRequest, ClaimPaymentLinkRequest}
use pstu_backend.Links.Service.{create_link, get_link_by_token, claim_link, cancel_link}
use pstu_backend.Notifications.{NotifReadReq, mark_notifications_read}

pub data Call : Type 0 where
  register : RegisterRequest → FreshAccount → Call
  login : Text → ℕ → LoginRequest → Instant → Call
  logout : Uuid → Cookies → Instant → Call
  change : Uuid → PinChangeReq → Instant → Call
  reset : Uuid → PinResetReq → Cookies → Instant → Call
  transfer : Uuid → CreateTransferRequest → Fresh → Call
  new_request : Uuid → CreateMoneyRequest → Fresh → Call
  accept : Uuid → Uuid → AcceptMoneyRequest → Fresh → Call
  reject : Uuid → Uuid → Instant → Call
  withdraw : Uuid → Uuid → Instant → Call
  new_link : ℕ → Uuid → CreatePaymentLinkRequest → Text → Fresh → Call
  read_link : Text → Instant → Call
  claim : Uuid → Text → ClaimPaymentLinkRequest → Fresh → Call
  cancel : Uuid → Text → Instant → Call
  mark_read : Uuid → NotifReadReq → Instant → Call

module _ (S : Services) where
  unfoldable pub serve : Call → AppState S.Cache → AppState S.Cache
  serve (register req f) s = (register_user S req f s).1
  serve (login token ttl req now) s = (login_user S token ttl req now s).1
  serve (logout u cookies now) s = (logout_user S u cookies now s).1
  serve (change u req now) s = (change_pin S u req now s).1
  serve (reset u req cookies now) s = (reset_pin S u req cookies now s).1
  serve (transfer u req f) s = (process_transfer S u req f s).1
  serve (new_request u req f) s = (create_request S u req f s).1
  serve (accept u id payload f) s = (accept_request S u id payload f s).1
  serve (reject u id now) s = (reject_request S u id now s).1
  serve (withdraw u id now) s = (cancel_request S u id now s).1
  serve (new_link ttl u req token f) s = (create_link S ttl u req token f s).1
  serve (read_link token now) s = (get_link_by_token S token now s).1
  serve (claim u token payload f) s = (claim_link S u token payload f s).1
  serve (cancel u token now) s = (cancel_link S u token now s).1
  serve (mark_read u req now) s = (mark_notifications_read u req now s).1

  -- What a fresh database becomes. The cache may change between two calls in any way (a key may
  -- lapse, Redis may restart).
  pub data Reachable : AppState S.Cache → Type 0 where
    start : (c : S.Cache) → Reachable (record { db = empty_db; cache = c })
    served : (s : AppState S.Cache) (call : Call) → Reachable s → Reachable (serve call s)
    cache_changed :
        (db : Db) (c c' : S.Cache)
        → Reachable (record { db = db; cache = c })
        → Reachable (record { db = db; cache = c' })
