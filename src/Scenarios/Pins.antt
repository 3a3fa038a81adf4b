-- ===== src/Scenarios/Pins.antt =====
-- The theorems on the PIN: Alice's, which is 1234.
use pstu_backend.Prelude.{text_eq_refl, Instant, Text, ◌≡◌, refl, arith, some, List, [], ◌∷◌}
use pstu_backend.Core.Error.{AppError, ok, err}
use pstu_backend.Core.Text.{codes}
use pstu_backend.Core.Pin.{enforce_user_pin}
use pstu_backend.Core.Pin.Lockout.{failures, attempts, attempts-locked}
use pstu_backend.Store.Schema.{UserRow}
use pstu_backend.Store.Statements.{find_user}
use pstu_backend.Auth.Transactions.{new_user}
use pstu_backend.Auth.PinChange.{PinChangeReq, change_pin}
use pstu_backend.Auth.PinChange.Effect.{PasswordLaws, change_pin-verified}
use pstu_backend.Scenarios.Memory.{memory, memory_laws}
use pstu_backend.Scenarios.World.{alice, opened, fresh_account}

pin_passes : (enforce_user_pin memory alice (codes "1234") 30 opened).0 ≡ ok tt
unfolding opened enforce_user_pin
pin_passes = refl

abbrev guesses : List (Text × Instant)
guesses =
    (codes "1111", 31)
    ∷ (codes "2222", 32)
    ∷ (codes "3333", 33)
    ∷ (codes "4444", 34)
    ∷ (codes "5555", 35)
    ∷ []

abbrev alices_row : UserRow
alices_row =
    new_user (codes "Alice") (codes "+8801700000001") (codes "secret") (codes "1234")
      (fresh_account alice "A1")

alice_found : find_user alice opened.db.users ≡ some alices_row
unfolding opened
alice_found = refl

no_failures : failures memory alice opened ≡ 0
unfolding opened
no_failures = refl

-- After five wrong guesses the right PIN is refused.
attempts-locked_example :
    enforce_user_pin memory alice (codes "1234") 36 (attempts memory alice guesses opened) ≡ (
      err (
          AppError.rate_limited
            "Transaction PIN is locked due to multiple failed attempts. Please try again in 15 minutes."),
      attempts memory alice guesses opened,
    )
attempts-locked_example =
    attempts-locked memory alice memory_laws guesses (codes "1234") 36 opened alices_row alice_found
      (refl, (refl, (refl, (refl, (refl, tt))))) (ground (arith, no_failures))

abbrev new_pin : PinChangeReq
new_pin = record { current_pin = codes "1234"; new_pin = codes "987654" }

pin_changed : (change_pin memory alice new_pin 40 opened).0 ≡ ok 40
unfolding opened change_pin enforce_user_pin
pin_changed = refl

memory_passwords : PasswordLaws memory
memory_passwords = record { verify-hash = λ p h e. ground (arith, e, text_eq_refl p) }

change_pin-verified_example :
    (enforce_user_pin memory alice
      (codes "987654")
      50
      (change_pin memory alice new_pin 40 opened).1).0
    ≡ ok tt
change_pin-verified_example =
    change_pin-verified memory alice memory_laws memory_passwords new_pin 40 50 opened 40
      pin_changed
