-- ===== src/System/Entitled.antt =====
-- Which calls can move money.
use pstu_backend.Prelude.{◌⊎◌, inl, inr, Uuid, Text, Instant}
use pstu_backend.Core.Services.{Services}
use pstu_backend.Core.App.{AppState}
use pstu_backend.Store.Schema.{Db}
use pstu_backend.Books.Unmoved.{Unmoved}
use pstu_backend.Books.Still.{Still, Still-refl, Unmoved-Still, Still-Unmoved}
use pstu_backend.Auth.Dto.{RegisterRequest, FreshAccount}
use pstu_backend.Auth.PinChange.{update_pin}
use pstu_backend.Auth.PinChange.Effect.{change_pin-Keeps}
use pstu_backend.Auth.Sessions.Kept.{login_user-Unmoved, logout_user-Unmoved, reset_pin-Keeps}
use pstu_backend.Transfers.Dto.{CreateTransferRequest, Fresh}
use pstu_backend.Requests.Dto.{AcceptMoneyRequest}
use pstu_backend.Requests.Books.{create_request-Keeps, reject_request-Keeps, cancel_request-Keeps}
use pstu_backend.Links.Dto.{ClaimPaymentLinkRequest}
use pstu_backend.Links.Books.{create_link-Keeps, get_link_by_token-Keeps, cancel_link-Keeps}
use pstu_backend.Notifications.Marked.{mark_notifications_read-Unmoved}
use pstu_backend.System.{
  Call, register, login, logout, change, reset, transfer, new_request, accept, reject, withdraw,
  new_link, read_link, claim, cancel, mark_read, serve,
}
use pstu_backend.System.Authorised.{
  Authorised, process_transfer-Guarded, accept_request-Guarded, claim_link-Guarded,
}

module _ (S : Services) where
  -- The calls that move money: a registration, and the three payments by a caller who exists, is not
  -- locked out and has given the PIN of the kept hash.
  pub data Entitled (s : AppState S.Cache) : Call → Type 0 where
    registers : (req : RegisterRequest) (f : FreshAccount) → Entitled s (register req f)
    pays :
        (u : Uuid) (req : CreateTransferRequest) (f : Fresh)
        → Authorised S u req.pin s
        → Entitled s (transfer u req f)
    accepts :
        (u id : Uuid) (payload : AcceptMoneyRequest) (f : Fresh)
        → Authorised S u payload.pin s
        → Entitled s (accept u id payload f)
    claims :
        (u : Uuid) (token : Text) (payload : ClaimPaymentLinkRequest) (f : Fresh)
        → Authorised S u payload.pin s
        → Entitled s (claim u token payload f)

  module _ (s : AppState S.Cache) where
    keep : (db db' : Db) → Unmoved db db' → Still s.db db → Still s.db db'
    keep = Still-Unmoved s.db

    repin :
        (u : Uuid) (h : Text) (now : Instant) (db : Db)
        → Still s.db db
        → Still s.db (update_pin u h now db)
    repin u h now db k = record { balances = k.balances; ledger = k.ledger }

    still : Still s.db s.db
    still = Still-refl s.db

    -- A call leaves every balance and every ledger row as it was, or it is one that can move money.
    pub serve-Entitled : (call : Call) → Still s.db (serve S call s).db ⊎ Entitled s call
    unfolding serve
    serve-Entitled (register req f) = inr (registers req f)
    serve-Entitled (login token ttl req now) =
        inl (Unmoved-Still s.db _ (login_user-Unmoved S token ttl req now s))
    serve-Entitled (logout u cookies now) =
        inl (Unmoved-Still s.db _ (logout_user-Unmoved S u cookies now s))
    serve-Entitled (change u req now) =
        inl (change_pin-Keeps S (Still s.db) keep repin u req now s still)
    serve-Entitled (reset u req cookies now) =
        inl (reset_pin-Keeps S (Still s.db) keep repin u req cookies now s still)
    serve-Entitled (transfer u req f) = elim (process_transfer-Guarded S u req f s) [
      | inl a ↦ inr (pays u req f a)
      | inr (m, e) ↦ inl (Unmoved-Still s.db _ m)
    ]
    serve-Entitled (new_request u req f) =
        inl (create_request-Keeps S (Still s.db) keep u req f s still)
    serve-Entitled (accept u id payload f) = elim (accept_request-Guarded S u id payload f s) [
      | inl a ↦ inr (accepts u id payload f a)
      | inr (m, e) ↦ inl (Unmoved-Still s.db _ m)
    ]
    serve-Entitled (reject u id now) =
        inl (reject_request-Keeps S (Still s.db) keep u id now s still)
    serve-Entitled (withdraw u id now) =
        inl (cancel_request-Keeps S (Still s.db) keep u id now s still)
    serve-Entitled (new_link ttl u req token f) =
        inl (create_link-Keeps S (Still s.db) keep ttl u req token f s still)
    serve-Entitled (read_link token now) =
        inl (get_link_by_token-Keeps S (Still s.db) keep token now s still)
    serve-Entitled (claim u token payload f) = elim (claim_link-Guarded S u token payload f s) [
      | inl a ↦ inr (claims u token payload f a)
      | inr (m, e) ↦ inl (Unmoved-Still s.db _ m)
    ]
    serve-Entitled (cancel u token now) =
        inl (cancel_link-Keeps S (Still s.db) keep u token now s still)
    serve-Entitled (mark_read u req now) =
        inl (Unmoved-Still s.db _ (mark_notifications_read-Unmoved u req now s))
