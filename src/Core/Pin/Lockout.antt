-- ===== src/Core/Pin/Lockout.antt =====
-- The lockout of core/pin.rs, over a Redis that answers.
use pstu_backend.Prelude.{
  ℕ, ◌+◌, ◌≤◌, ◌<◌, Uuid, Instant, Text, ◌≡◌, arith, some, List, [], ◌∷◌, true, false, length,
  unwrap_or,
}
use pstu_backend.Core.Error.{AppError, ok, err}
use pstu_backend.Core.Limits.{max_pin_failures, lockout_seconds}
use pstu_backend.Core.Services.{Services, RedisLaws, Key}
use pstu_backend.Core.App.{AppState}
use pstu_backend.Core.Pin.{enforce_user_pin}
use pstu_backend.Store.Schema.{UserRow}
use pstu_backend.Store.Statements.{find_user}
use pstu_backend.Store.Events.{log_event}

module _ (S : Services) (u : Uuid) where
  abbrev pub failures : AppState S.Cache → ℕ
  failures s = unwrap_or 0 (S.get (Key.pin_failures u) s.cache)

  -- The PIN check passes only for a user who is in the tables, whose failure counter is below five
  -- and for whose kept hash the PIN is verified; it then writes no table.
  pub enforce_user_pin-eq-ok :
      (pin : Text) (now : Instant) (s : AppState S.Cache)
      → (enforce_user_pin S u pin now s).0 ≡ ok tt
      → (failures s < max_pin_failures)
        × (r : UserRow) × (find_user u s.db.users ≡ some r)
        × (S.verify_password pin r.pin_hash ≡ some true)
        × ((enforce_user_pin S u pin now s).1.db ≡ s.db)
  unfolding enforce_user_pin
  enforce_user_pin-eq-ok pin now s h = ground (arith, h)

  -- The state after a run of attempts, whatever each was answered.
  abbrev pub attempts : List (Text × Instant) → AppState S.Cache → AppState S.Cache
  attempts [] s = s
  attempts ((pin, now) ∷ tries) s = attempts tries (enforce_user_pin S u pin now s).1

  -- Every attempt is refuted by the hash.
  abbrev pub AllWrong : Text → List (Text × Instant) → Type 0
  AllWrong hash [] = Unit {0}
  AllWrong hash ((pin, now) ∷ tries) =
      (S.verify_password pin hash ≡ some false) × AllWrong hash tries

  locked_out :
      (pin : Text) (now : Instant) (s : AppState S.Cache)
      → max_pin_failures ≤ failures s
      → enforce_user_pin S u pin now s ≡ (
        err (
            AppError.rate_limited
              "Transaction PIN is locked due to multiple failed attempts. Please try again in 15 minutes."),
        s,
      )
  unfolding enforce_user_pin
  locked_out pin now s h = ground (arith, h)

  module _ (L : RedisLaws S) where
    wrong_attempt :
        (pin : Text) (now : Instant) (s : AppState S.Cache) (r : UserRow)
        → find_user u s.db.users ≡ some r
        → S.verify_password pin r.pin_hash ≡ some false
        → failures s < max_pin_failures
        → (failures (enforce_user_pin S u pin now s).1 ≡ failures s + 1)
          × ((enforce_user_pin S u pin now s).1.db.users ≡ s.db.users)
    unfolding enforce_user_pin log_event
    wrong_attempt pin now s r found wrong few = ground (
      arith,
      found,
      wrong,
      few,
      L.get_incr (Key.pin_failures u) 1 s.cache,
      L.get_expire (Key.pin_failures u) (Key.pin_failures u) lockout_seconds
          (S.incr (Key.pin_failures u) 1 s.cache).1,
    )

    wrong_attempts :
        (tries : List (Text × Instant)) (s : AppState S.Cache) (r : UserRow)
        → find_user u s.db.users ≡ some r
        → AllWrong r.pin_hash tries
        → failures s + length tries ≤ max_pin_failures
        → failures (attempts tries s) ≡ failures s + length tries
    wrong_attempts [] s r found wrong few = omega arith
    wrong_attempts ((pin, now) ∷ tries) s r found wrong few =
        let w = wrong_attempt pin now s r found wrong.0 (omega (arith, few)) in
        let s' = (enforce_user_pin S u pin now s).1 in
        let rest =
          wrong_attempts tries s' r (ground (arith, w.1, found)) wrong.1
            (omega (arith, w.0, few)) in
        omega (arith, rest, w.0)

    -- With a Redis that answers: when wrong PINs, as many as the user's failure counter still allows
    -- up to five, have been tried one after another, the next attempt is refused as locked and
    -- changes nothing, whatever PIN it gives.
    pub attempts-locked :
        (tries : List (Text × Instant)) (pin : Text) (now : Instant) (s : AppState S.Cache)
        (r : UserRow)
        → find_user u s.db.users ≡ some r
        → AllWrong r.pin_hash tries
        → failures s + length tries ≡ max_pin_failures
        → enforce_user_pin S u pin now (attempts tries s) ≡ (
          err (
              AppError.rate_limited
                "Transaction PIN is locked due to multiple failed attempts. Please try again in 15 minutes."),
          attempts tries s,
        )
    attempts-locked tries pin now s r found wrong five =
        locked_out pin now (attempts tries s)
          (omega (arith, five, wrong_attempts tries s r found wrong (omega (arith, five))))

    -- With a Redis that answers, a PIN check that passes leaves the user's failure counter at zero.
    pub enforce_user_pin-resets :
        (pin : Text) (now : Instant) (s : AppState S.Cache)
        → (enforce_user_pin S u pin now s).0 ≡ ok tt
        → failures (enforce_user_pin S u pin now s).1 ≡ 0
    unfolding enforce_user_pin
    enforce_user_pin-resets pin now s h = ground (arith, h, L.get_del (Key.pin_failures u) s.cache)
