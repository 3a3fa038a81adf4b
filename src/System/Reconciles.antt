-- ===== src/System/Reconciles.antt =====
-- The books are in order in every state that the system reaches.
use pstu_backend.Prelude.{◌*◌, ◌<◌, ◌≡◌, refl, arith, [], length}
use pstu_backend.Core.Error.{ok}
use pstu_backend.Core.Limits.{seed_balance_paisa}
use pstu_backend.Prelude.{i64_limit}
use pstu_backend.Core.Services.{Services}
use pstu_backend.Core.App.{AppState}
use pstu_backend.Store.Schema.{empty_db}
use pstu_backend.Books.Invariant.{Books}
use pstu_backend.Auth.Books.{register_user-Books}
use pstu_backend.Auth.PinChange.Effect.{change_pin-Keeps, update_pin-Books}
use pstu_backend.Auth.Sessions.Kept.{login_user-Unmoved, logout_user-Unmoved, reset_pin-Keeps}
use pstu_backend.Transfers.Books.{process_transfer-Books}
use pstu_backend.Requests.Books.{
  create_request-Keeps, accept_request-Books, reject_request-Keeps, cancel_request-Keeps,
}
use pstu_backend.Links.Books.{
  create_link-Keeps, get_link_by_token-Keeps, claim_link-Books, cancel_link-Keeps,
}
use pstu_backend.Books.Unmoved.{Unmoved-Books}
use pstu_backend.Notifications.Marked.{mark_notifications_read-Unmoved}
use pstu_backend.Reconcile.{ReconcileReport, run_reconciliation}
use pstu_backend.Reconcile.Clean.{run_reconciliation_clean}
use pstu_backend.System.{
  Call, register, login, logout, change, reset, transfer, new_request, accept, reject, withdraw,
  new_link, read_link, claim, cancel, mark_read, serve, Reachable, start, served, cache_changed,
}

empty_db-Books : Books empty_db
empty_db-Books = record {
  accounts = record {
    keyed = tt;
    owned = refl;
    chains = λ u b h. absurd (ground (arith, h));
    strangers = λ u h. refl;
    in_range = λ u b h. absurd (ground (arith, h));
  };
  funded = refl;
}

module _ (S : Services) where
  serve-Books : (call : Call) (s : AppState S.Cache) → Books s.db → Books (serve S call s).db
  unfolding serve
  serve-Books (register req f) s b = register_user-Books S req f s b
  serve-Books (login token ttl req now) s b =
      Unmoved-Books s.db _ (login_user-Unmoved S token ttl req now s) b
  serve-Books (logout u cookies now) s b =
      Unmoved-Books s.db _ (logout_user-Unmoved S u cookies now s) b
  serve-Books (change u req now) s b =
      change_pin-Keeps S Books Unmoved-Books update_pin-Books u req now s b
  serve-Books (reset u req cookies now) s b =
      reset_pin-Keeps S Books Unmoved-Books update_pin-Books u req cookies now s b
  serve-Books (transfer u req f) s b = process_transfer-Books S u req f s b
  serve-Books (new_request u req f) s b = create_request-Keeps S Books Unmoved-Books u req f s b
  serve-Books (accept u id payload f) s b = accept_request-Books S u id payload f s b
  serve-Books (reject u id now) s b = reject_request-Keeps S Books Unmoved-Books u id now s b
  serve-Books (withdraw u id now) s b = cancel_request-Keeps S Books Unmoved-Books u id now s b
  serve-Books (new_link ttl u req token f) s b =
      create_link-Keeps S Books Unmoved-Books ttl u req token f s b
  serve-Books (read_link token now) s b =
      get_link_by_token-Keeps S Books Unmoved-Books token now s b
  serve-Books (claim u token payload f) s b = claim_link-Books S u token payload f s b
  serve-Books (cancel u token now) s b = cancel_link-Keeps S Books Unmoved-Books u token now s b
  serve-Books (mark_read u req now) s b =
      Unmoved-Books s.db _ (mark_notifications_read-Unmoved u req now s) b

  -- In every state that the handlers reach from an empty database: each user has one balance row, in
  -- range of a BIGINT; the user's ledger rows lead step by step from nothing to that balance; an id
  -- without a balance has no ledger row; and the balances add up to the seed balance of every user.
  pub Reachable-Books : (s : AppState S.Cache) → Reachable S s → Books s.db
  Reachable-Books _ (start c) = empty_db-Books
  Reachable-Books _ (served s call r) = serve-Books call s (Reachable-Books s r)
  Reachable-Books _ (cache_changed db c c' r) = Reachable-Books (record { db = db; cache = c }) r

  -- From an empty database, after any sequence of registrations, logins, logouts, changes and resets
  -- of a PIN, transfers, requests and links (created, read, accepted, rejected, claimed, cancelled)
  -- and notifications marked as read, with any input and whatever becomes of the cache in between,
  -- the reconciliation runs to its end, reports no violation and counts every user as reconciled, as
  -- long as the money that registration has put in fits a BIGINT.
  pub Reachable-reconciles :
      (s : AppState S.Cache)
      → Reachable S s
      → length s.db.users * seed_balance_paisa < i64_limit
      → (r : ReconcileReport) × (run_reconciliation s.db ≡ ok r)
        × (r.errors ≡ [])
        × (r.users_reconciled ≡ length s.db.users)
  Reachable-reconciles s r fits = run_reconciliation_clean s.db (Reachable-Books s r) fits
