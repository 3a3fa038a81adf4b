-- ===== src/Auth/Sessions/Kept.antt =====
-- Logins, logouts and resets of the PIN keep the books.
use mathlib.Core.Path.{subst}
use pstu_backend.Prelude.{
  ℕ, ◌≡◌, sym, arith, Uuid, Instant, Text, Option-cases, Bool-cases, ◌⊎◌, inl, inr, unwrap_or, leb,
}
use pstu_backend.Core.Error.{Result-cases}
use pstu_backend.Core.Services.{Services, Key}
use pstu_backend.Core.Text.{trim}
use pstu_backend.Core.App.{AppState}
use pstu_backend.Core.App.Keeps.{Keeps}
use pstu_backend.Store.Schema.{Db, UserRow}
use pstu_backend.Store.Events.{log_event}
use pstu_backend.Books.Unmoved.{Unmoved, Unmoved-same, log_event-Unmoved}
use pstu_backend.Auth.Login.{
  LoginRequest, login_failed_event, login_success_event, find_login, login_known, login_user,
}
use pstu_backend.Auth.Login.Lockout.{login_failures}
use pstu_backend.Core.Limits.{max_login_failures}
use pstu_backend.Auth.PinChange.{update_pin}
use pstu_backend.Auth.Sessions.{
  Cookies, PinResetReq, logout_event, pin_reset_event, logout_user, reset_pin,
}

module _ (S : Services) where
  -- The failures that a wrong password would count up to.
  abbrev counted : Text → S.Cache → ℕ
  counted phone c = unwrap_or 1 (S.incr (Key.login_failures phone) 1 c).0

  login_known-db :
      (token : Text) (ttl : ℕ) (req : LoginRequest) (now : Instant) (p : UserRow × ℕ)
      (s : AppState S.Cache)
      → let db' = (login_known S token ttl req now p s).1.db in
        (db' ≡ s.db)
        ⊎ ((db' ≡ log_event (login_failed_event p.0.id (counted (trim req.phone) s.cache) now) s.db)
            ⊎ (db' ≡ log_event (login_success_event p.0.id now) s.db))
  unfolding login_known
  login_known-db token ttl req now (r, balance) s = ground arith

  -- A login writes nothing, or what it writes for the user it finds.
  login_user-db :
      (token : Text) (ttl : ℕ) (req : LoginRequest) (now : Instant) (s : AppState S.Cache)
      → let db' = (login_user S token ttl req now s).1.db in
        (db' ≡ s.db) ⊎ ((p : UserRow × ℕ) × (db' ≡ (login_known S token ttl req now p s).1.db))
  unfolding login_user
  login_user-db token ttl req now s = elim (Option-cases (find_login (trim req.phone) s.db)) [
    | inl unknown ↦ inl (ground (arith, unknown))
    | inr (p, found) ↦
        elim (Bool-cases (leb max_login_failures (login_failures S (trim req.phone) s))) [
          | inl full ↦ inl (ground (arith, full))
          | inr few ↦ inr (p, ground (arith, found, few))
        ]
  ]

  pub login_user-Unmoved :
      (token : Text) (ttl : ℕ) (req : LoginRequest) (now : Instant) (s : AppState S.Cache)
      → Unmoved s.db (login_user S token ttl req now s).1.db
  login_user-Unmoved token ttl req now s = elim (login_user-db token ttl req now s) [
    | inl same ↦ Unmoved-same s.db _ same
    | inr (p, known) ↦
        subst (Unmoved s.db) (sym known) (elim (login_known-db token ttl req now p s) [
          | inl same ↦ Unmoved-same s.db _ same
          | inr (inl failed) ↦ subst (Unmoved s.db) (sym failed) (log_event-Unmoved _ s.db)
          | inr (inr opened) ↦ subst (Unmoved s.db) (sym opened) (log_event-Unmoved _ s.db)
        ])
  ]

  pub logout_user-Unmoved :
      (u : Uuid) (cookies : Cookies) (now : Instant) (s : AppState S.Cache)
      → Unmoved s.db (logout_user S u cookies now s).1.db
  unfolding logout_user
  logout_user-Unmoved u cookies now s = log_event-Unmoved (logout_event u now) s.db

  reset_pin-db :
      (u : Uuid) (req : PinResetReq) (cookies : Cookies) (now : Instant) (s : AppState S.Cache)
      → let db' = (reset_pin S u req cookies now s).1.db in
        (db' ≡ s.db)
        ⊎ ((h : Text) × (db' ≡ log_event (pin_reset_event u now) (update_pin u h now s.db)))
  unfolding reset_pin
  reset_pin-db u req cookies now s = elim (Option-cases (S.hash_password req.new_pin)) [
    | inl failed ↦ inl (ground (arith, failed))
    | inr (h, hashed) ↦ elim (Result-cases (reset_pin S u req cookies now s).0) [
      | inl (a, passed) ↦ inr (h, ground (arith, hashed, passed))
      | inr (e, refused) ↦ inl (ground (arith, hashed, refused))
    ]
  ]

-- Any property that writes outside the books and of a PIN keep is kept by a reset of the PIN.
module _ (S : Services) (P : Db → Type 0) (keep : (db db' : Db) → Unmoved db db' → P db → P db')
    (repin : (u : Uuid) (h : Text) (now : Instant) (db : Db)
      → P db
      → P (update_pin u h now db)) where
  pub reset_pin-Keeps :
      (u : Uuid) (req : PinResetReq) (cookies : Cookies) (now : Instant)
      → Keeps P (reset_pin S u req cookies now)
  reset_pin-Keeps u req cookies now s b = elim (reset_pin-db S u req cookies now s) [
    | inl same ↦ subst P (sym same) b
    | inr (h, written) ↦
        subst P (sym written) (keep _ _ (log_event-Unmoved _ _) (repin u h now s.db b))
  ]
