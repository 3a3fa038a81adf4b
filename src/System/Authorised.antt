-- ===== src/System/Authorised.antt =====
-- No handler moves money before the PIN of its caller is checked.
use pstu_backend.Prelude.{◌<◌, Uuid, Instant, Text, ◌≡◌, ◌≢◌, refl, ◌⊎◌, inl, inr, some, true}
use pstu_backend.Core.Error.{Result, ok, err}
use pstu_backend.Core.Limits.{max_pin_failures}
use pstu_backend.Core.Services.{Services}
use pstu_backend.Core.App.{AppState, Action, continue, ◌>>=◌}
use pstu_backend.Core.Pin.{enforce_user_pin}
use pstu_backend.Core.Pin.Keeps.{enforce_user_pin-Keeps}
use pstu_backend.Core.Pin.Lockout.{failures, enforce_user_pin-eq-ok}
use pstu_backend.Store.Schema.{UserRow}
use pstu_backend.Store.Statements.{find_user}
use pstu_backend.Store.Tx.{⊤}
use pstu_backend.Books.Unmoved.{Unmoved, Unmoved-refl, Unmoved-trans, log_event-Unmoved}
use pstu_backend.Transfers.Dto.{CreateTransferRequest, Fresh}
use pstu_backend.Transfers.Service.{process_transfer}
use pstu_backend.Requests.Dto.{AcceptMoneyRequest}
use pstu_backend.Requests.Service.{accept_request}
use pstu_backend.Links.Dto.{ClaimPaymentLinkRequest}
use pstu_backend.Links.Service.{claim_link}

module _ (S : Services) where
  -- The caller exists, is not locked out, and has given the PIN whose hash is kept.
  pub record Authorised (u : Uuid) (pin : Text) (s : AppState S.Cache) : Type 0 where
    pub few : failures S u s < max_pin_failures
    pub user : UserRow
    pub found : find_user u s.db.users ≡ some user
    pub verified : S.verify_password pin user.pin_hash ≡ some true

  -- Either the caller was authorised, or the books are as they were and the answer is an error.
  abbrev pub Guarded :
      {A : Type 0} → Uuid → Text → AppState S.Cache → Result A × AppState S.Cache → Type 0
  Guarded {A} u pin s x = Authorised u pin s ⊎ (Unmoved s.db x.1.db × ((a : A) → x.0 ≢ ok a))

  enforce_user_pin-Unmoved :
      (u : Uuid) (pin : Text) (now : Instant) (s : AppState S.Cache)
      → Unmoved s.db (enforce_user_pin S u pin now s).1.db
  enforce_user_pin-Unmoved u pin now s =
      enforce_user_pin-Keeps S (Unmoved s.db) (λ e db m. Unmoved-trans m (log_event-Unmoved e db)) u
        pin now s (Unmoved-refl s.db)

  gate :
      {A : Type 0} (u : Uuid) (pin : Text) (now : Instant) (k : ⊤ → Action S.Cache A)
      (s : AppState S.Cache)
      → Guarded u pin s ((enforce_user_pin S u pin now >>= k) s)
  gate {A} u pin now k s = go (enforce_user_pin S u pin now s).0 refl
    where
      go :
          (r : Result ⊤)
          → (enforce_user_pin S u pin now s).0 ≡ r
          → Guarded u pin s (continue r (enforce_user_pin S u pin now s).1 k)
      go (ok tt) e =
          let (few, r, found, verified, same) = enforce_user_pin-eq-ok S u pin now s e in
          inl (record { few = few; user = r; found = found; verified = verified })
      go (err x) e = inr (enforce_user_pin-Unmoved u pin now s, λ a h. cc)

  -- A transfer either comes from a user who exists, is not locked out and gave the PIN of the kept
  -- hash, or it leaves the books as they were and is answered with an error.
  pub process_transfer-Guarded :
      (u : Uuid) (req : CreateTransferRequest) (f : Fresh) (s : AppState S.Cache)
      → Guarded u req.pin s (process_transfer S u req f s)
  unfolding process_transfer
  process_transfer-Guarded u req f s = gate u req.pin f.now _ s

  -- The acceptance of a request either comes from a user who exists, is not locked out and gave the
  -- PIN of the kept hash, or it leaves the books as they were and is answered with an error.
  pub accept_request-Guarded :
      (u id : Uuid) (payload : AcceptMoneyRequest) (f : Fresh) (s : AppState S.Cache)
      → Guarded u payload.pin s (accept_request S u id payload f s)
  unfolding accept_request
  accept_request-Guarded u id payload f s = gate u payload.pin f.now _ s

  -- The claim of a link either comes from a user who exists, is not locked out and gave the PIN of
  -- the kept hash, or it leaves the books as they were and is answered with an error.
  pub claim_link-Guarded :
      (u : Uuid) (token : Text) (payload : ClaimPaymentLinkRequest) (f : Fresh)
      (s : AppState S.Cache)
      → Guarded u payload.pin s (claim_link S u token payload f s)
  unfolding claim_link
  claim_link-Guarded u token payload f s = gate u payload.pin f.now _ s
