-- ===== src/Auth/Login/Lockout.antt =====
-- The lockout of `login_user`, over a Redis that answers.
use pstu_backend.Prelude.{
  ℕ, ◌+◌, ◌≤◌, ◌<◌, Instant, Text, ◌≡◌, refl, arith, Option, none, some, List, [], ◌∷◌, false,
  length, unwrap_or,
}
use pstu_backend.Core.Error.{err}
use pstu_backend.Core.Limits.{max_login_failures, lockout_seconds}
use pstu_backend.Core.Services.{Services, RedisLaws, Key}
use pstu_backend.Core.Text.{trim}
use pstu_backend.Core.App.{AppState}
use pstu_backend.Store.Schema.{Db, ProcessEventRow, UserRow, active}
use pstu_backend.Store.Events.{log_event}
use pstu_backend.Auth.Login.{LoginRequest, find_login, login_locked, login_failed_event, login_user}

-- An attempt at a login, with the token and the lifetime that a session would be given.
pub record Attempt : Type 0 where
  pub req : LoginRequest
  pub token : Text
  pub session_ttl_secs : ℕ
  pub now : Instant

find_login-log_event :
    (phone : Text) (e : ProcessEventRow) (db : Db)
    → find_login phone (log_event e db) ≡ find_login phone db
unfolding find_login log_event
find_login-log_event phone e db = ground arith

module _ (S : Services) (phone : Text) where
  abbrev pub login_failures : AppState S.Cache → ℕ
  login_failures s = unwrap_or 0 (S.get (Key.login_failures phone) s.cache)

  abbrev pub login : Attempt → AppState S.Cache → AppState S.Cache
  login a s = (login_user S a.token a.session_ttl_secs a.req a.now s).1

  abbrev pub logins : List Attempt → AppState S.Cache → AppState S.Cache
  logins [] s = s
  logins (a ∷ tries) s = logins tries (login a s)

  -- No user has the phone number, or the active user who has it has another password.
  abbrev pub Refuted : Text → Option (UserRow × ℕ) → Type 0
  Refuted password none = Unit {0}
  Refuted password (some (r, b)) =
      (r.status ≡ active) × (S.verify_password password r.password_hash ≡ some false)

  -- Every attempt gives the phone number, up to spaces around it, and is refuted.
  abbrev pub AllRefuted : Option (UserRow × ℕ) → List Attempt → Type 0
  AllRefuted found [] = Unit {0}
  AllRefuted found (a ∷ tries) =
      ((trim a.req.phone ≡ phone) × Refuted a.req.password found) × AllRefuted found tries

  locked_out :
      (a : Attempt) (s : AppState S.Cache)
      → trim a.req.phone ≡ phone
      → max_login_failures ≤ login_failures s
      → login_user S a.token a.session_ttl_secs a.req a.now s ≡ (err login_locked, s)
  unfolding login_user
  locked_out a s e h = ground (arith, e, h)

  module _ (L : RedisLaws S) where
    wrong_login :
        (a : Attempt) (s : AppState S.Cache) (found : Option (UserRow × ℕ))
        → find_login phone s.db ≡ found
        → trim a.req.phone ≡ phone
        → Refuted a.req.password found
        → login_failures s < max_login_failures
        → (login_failures (login a s) ≡ login_failures s + 1)
          × (find_login phone (login a s).db ≡ found)
    unfolding login_user
    wrong_login a s none e p r few = ground (
      arith,
      e,
      p,
      few,
      L.get_incr (Key.login_failures phone) 1 s.cache,
      L.get_expire (Key.login_failures phone) (Key.login_failures phone) lockout_seconds
          (S.incr (Key.login_failures phone) 1 s.cache).1,
    )
    wrong_login a s (some (u, b)) e p r few = ground (
      arith,
      e,
      p,
      r.0,
      r.1,
      few,
      find_login-log_event phone
          (login_failed_event u.id (unwrap_or 1 (S.incr (Key.login_failures phone) 1 s.cache).0)
            a.now)
          s.db,
      L.get_incr (Key.login_failures phone) 1 s.cache,
      L.get_expire (Key.login_failures phone) (Key.login_failures phone) lockout_seconds
          (S.incr (Key.login_failures phone) 1 s.cache).1,
    )

    wrong_logins :
        (tries : List Attempt) (s : AppState S.Cache)
        → AllRefuted (find_login phone s.db) tries
        → login_failures s + length tries ≤ max_login_failures
        → login_failures (logins tries s) ≡ login_failures s + length tries
    wrong_logins [] s r few = omega arith
    wrong_logins (a ∷ tries) s r few =
        let w = wrong_login a s (find_login phone s.db) refl r.0.0 r.0.1 (omega (arith, few)) in
        let rest = wrong_logins tries (login a s) (rw w.1 r.1) (omega (arith, few, w.0)) in
        omega (arith, rest, w.0)

    -- With a Redis that answers: when failed logins of one phone number, known or not, as many as
    -- its failures still allow up to five, have been tried one after another, the next login with
    -- the number is refused as locked and changes nothing, whatever password it gives. A failed
    -- login is one with a number that no user has, or with a password that an active user's hash
    -- refutes.
    pub logins-locked :
        (tries : List Attempt) (a : Attempt) (s : AppState S.Cache)
        → AllRefuted (find_login phone s.db) tries
        → login_failures s + length tries ≡ max_login_failures
        → trim a.req.phone ≡ phone
        → login_user S a.token a.session_ttl_secs a.req a.now (logins tries s)
          ≡ (err login_locked, logins tries s)
    logins-locked tries a s r five e =
        locked_out a (logins tries s) e
          (omega (arith, five, wrong_logins tries s r (omega (arith, five))))
