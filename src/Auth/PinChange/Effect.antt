-- ===== src/Auth/PinChange/Effect.antt =====
-- A change of the PIN keeps the books, and the new PIN is the one that counts.
use pstu_backend.Prelude.{
  ◌<◌, Option-cases, inl, inr, ◌≡◌, refl, sym, ◌∙◌, ap, arith, Uuid, Instant, Text, List, [], ◌∷◌,
  map, some, true, ◌==◌, update_rows, length-update_rows,
}
use pstu_backend.Core.Error.{AppError, Result, ok, err}
use pstu_backend.Core.Services.{Services, RedisLaws}
use pstu_backend.Core.App.{AppState, ok_or_raise}
use pstu_backend.Core.App.Keeps.{Keeps, >>=-Keeps, ok_or_raise-Keeps}
use pstu_backend.Core.Pin.{enforce_user_pin}
use pstu_backend.Core.Limits.{max_pin_failures}
use pstu_backend.Core.Pin.Lockout.{failures, enforce_user_pin-eq-ok, enforce_user_pin-resets}
use pstu_backend.Store.Tx.{⊤}
use pstu_backend.Core.Pin.Keeps.{enforce_user_pin-Keeps}
use pstu_backend.Store.Schema.{Db, UserRow}
use pstu_backend.Store.Statements.{find_user}
use pstu_backend.Store.Events.{log_event}
use pstu_backend.Books.Invariant.{Books}
use pstu_backend.Books.Unmoved.{Unmoved, log_event-Unmoved}
use pstu_backend.Auth.PinChange.{PinChangeReq, set_pin, update_pin, pin_changed_event, change_pin}

ids-set_pin :
    (u : Uuid) (h : Text) (now : Instant) (rows : List UserRow)
    → map (λ (r : UserRow). r.id) (update_rows (λ (r : UserRow). r.id == u) (set_pin h now) rows)
      ≡ map (λ (r : UserRow). r.id) rows
ids-set_pin u h now [] = refl
ids-set_pin u h now (r ∷ rows) = ground (arith, ids-set_pin u h now rows)

pub find_user-set_pin :
    (u : Uuid) (h : Text) (now : Instant) (rows : List UserRow) (r : UserRow)
    → find_user u rows ≡ some r
    → find_user u (update_rows (λ (x : UserRow). x.id == u) (set_pin h now) rows)
      ≡ some (set_pin h now r)
find_user-set_pin u h now [] r e = cc
find_user-set_pin u h now (x ∷ rows) r e = ground (arith, e, find_user-set_pin u h now rows r)

pub update_pin-Books :
    (u : Uuid) (h : Text) (now : Instant) (db : Db) → Books db → Books (update_pin u h now db)
update_pin-Books u h now db b = record {
  accounts = record {
    keyed = b.accounts.keyed;
    owned = b.accounts.owned ∙ sym (ids-set_pin u h now db.users);
    chains = b.accounts.chains;
    strangers = b.accounts.strangers;
    in_range = b.accounts.in_range;
  };
  funded =
      ground
        (arith, b.funded, length-update_rows (λ (r : UserRow). r.id == u) (set_pin h now) db.users);
}

-- Any property that writes outside the books and of a PIN keep is kept by a change of the PIN.
module _ (S : Services) (P : Db → Type 0) (keep : (db db' : Db) → Unmoved db db' → P db → P db')
    (repin : (u : Uuid) (h : Text) (now : Instant) (db : Db)
      → P db
      → P (update_pin u h now db)) where
  pub change_pin-Keeps :
      (u : Uuid) (req : PinChangeReq) (now : Instant) → Keeps P (change_pin S u req now)
  unfolding change_pin
  change_pin-Keeps u req now =
      >>=-Keeps P (enforce_user_pin S u req.current_pin now) _
        (enforce_user_pin-Keeps S P (λ e db b. keep db _ (log_event-Unmoved e db) b) u
          req.current_pin now)
        (λ _.
          >>=-Keeps P
            (ok_or_raise (AppError.internal "Failed to hash PIN") (S.hash_password req.new_pin)) _
            (ok_or_raise-Keeps P (AppError.internal "Failed to hash PIN")
              (S.hash_password req.new_pin))
            (λ h s b.
              keep _ _ (log_event-Unmoved (pin_changed_event u now) (update_pin u h now s.db))
                (repin u h now s.db b)))

-- What Argon2 documents: a password is verified by its hash.
pub record PasswordLaws (S : Services) : Type 0 where
  pub verify-hash : (p h : Text) → S.hash_password p ≡ some h → S.verify_password p h ≡ some true

module _ (S : Services) (u : Uuid) where
  pub enforce_user_pin-passes :
      (pin : Text) (now : Instant) (s : AppState S.Cache) (r : UserRow)
      → failures S u s < max_pin_failures
      → find_user u s.db.users ≡ some r
      → S.verify_password pin r.pin_hash ≡ some true
      → (enforce_user_pin S u pin now s).0 ≡ ok tt
  unfolding enforce_user_pin
  enforce_user_pin-passes pin now s r few found verified = ground (arith, few, found, verified)

  -- The state after a change that was answered: the check has run, and the row and the log are written.
  abbrev changed : PinChangeReq → Instant → Text → AppState S.Cache → AppState S.Cache
  changed req now h s =
      let s₁ = (enforce_user_pin S u req.current_pin now s).1 in
      record {
        db = log_event (pin_changed_event u now) (update_pin u h now s₁.db);
        cache = s₁.cache;
      }

  change_pin-eq-ok :
      (req : PinChangeReq) (now : Instant) (s : AppState S.Cache) {answer : Instant}
      → (change_pin S u req now s).0 ≡ ok answer
      → ((enforce_user_pin S u req.current_pin now s).0 ≡ ok tt)
        × (h : Text) × (S.hash_password req.new_pin ≡ some h)
        × ((change_pin S u req now s).1 ≡ changed req now h s)
  unfolding change_pin
  change_pin-eq-ok req now s e = go (enforce_user_pin S u req.current_pin now s).0 refl
    where
      go :
          (r : Result ⊤)
          → (enforce_user_pin S u req.current_pin now s).0 ≡ r
          → ((enforce_user_pin S u req.current_pin now s).0 ≡ ok tt)
            × (h : Text) × (S.hash_password req.new_pin ≡ some h)
            × ((change_pin S u req now s).1 ≡ changed req now h s)
      go (ok tt) p = elim (Option-cases (S.hash_password req.new_pin)) [
        | inl gone ↦ absurd (ground (arith, e, p, gone))
        | inr (h, hashed) ↦ (p, h, hashed, ground (arith, p, hashed))
      ]
      go (err x) p = absurd (ground (arith, e, p))

  -- With a Redis that answers and an Argon2 that verifies a text by its own hash, after a change of
  -- the PIN that was answered the check of the user's new PIN passes.
  pub change_pin-verified :
      (redis : RedisLaws S) (argon : PasswordLaws S) (req : PinChangeReq) (now later : Instant)
      (s : AppState S.Cache) (answer : Instant)
      → (change_pin S u req now s).0 ≡ ok answer
      → (enforce_user_pin S u req.new_pin later (change_pin S u req now s).1).0 ≡ ok tt
  change_pin-verified redis argon req now later s answer e =
      let (passed, h, hashed, after) = change_pin-eq-ok req now s e in
      let known = enforce_user_pin-eq-ok S u req.current_pin now s passed in
      let zero = enforce_user_pin-resets S u redis req.current_pin now s passed in
      rw after (
        enforce_user_pin-passes req.new_pin later (changed req now h s) (set_pin h now known.1)
          (omega (arith, zero))
          (ap (find_user u)
              (log_event-Unmoved (pin_changed_event u now)
                (update_pin u h now (enforce_user_pin S u req.current_pin now s).1.db)).users
            ∙ find_user-set_pin u h now (enforce_user_pin S u req.current_pin now s).1.db.users
                known.1 (ground (arith, known.2, known.4)))
          (argon.verify-hash req.new_pin h hashed))
