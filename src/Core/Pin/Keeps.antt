-- ===== src/Core/Pin/Keeps.antt =====
-- The PIN check writes no table but the audit log.
use mathlib.Core.Path.{subst}
use pstu_backend.Prelude.{ℕ, Uuid, Instant, Text, arith, ◌≡◌, sym, ◌⊎◌, inl, inr, unwrap_or}
use pstu_backend.Core.Services.{Services, Key}
use pstu_backend.Core.App.{AppState}
use pstu_backend.Core.App.Keeps.{Keeps}
use pstu_backend.Core.Pin.{enforce_user_pin, pin_failed_event}
use pstu_backend.Store.Schema.{Db, ProcessEventRow}
use pstu_backend.Store.Events.{log_event}

module _ (S : Services) where
  -- The failures that a wrong PIN would count up to.
  abbrev pub counted : Uuid → S.Cache → ℕ
  counted u c = unwrap_or 1 (S.incr (Key.pin_failures u) 1 c).0

  pub enforce_user_pin-db :
      (u : Uuid) (pin : Text) (now : Instant) (s : AppState S.Cache)
      → let db' = (enforce_user_pin S u pin now s).1.db in
        (db' ≡ s.db) ⊎ (db' ≡ log_event (pin_failed_event u (counted u s.cache) now) s.db)
  unfolding enforce_user_pin
  enforce_user_pin-db u pin now s = ground arith

module _ (S : Services) (P : Db → Type 0)
    (logs : (e : ProcessEventRow) (db : Db) → P db → P (log_event e db)) where
  pub enforce_user_pin-Keeps :
      (u : Uuid) (pin : Text) (now : Instant) → Keeps P (enforce_user_pin S u pin now)
  enforce_user_pin-Keeps u pin now s p = elim (enforce_user_pin-db S u pin now s) [
    | inl same ↦ subst P (sym same) p
    | inr logged ↦ subst P (sym logged) (logs (pin_failed_event u (counted S u s.cache) now) s.db p)
  ]
