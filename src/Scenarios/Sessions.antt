-- ===== src/Scenarios/Sessions.antt =====
-- Alice logs in on a phone and on a laptop, mistypes her password, resets her PIN on the laptop and
-- logs out.
use pstu_backend.Prelude.{ℕ, ◌≡◌, ◌<◌, refl, arith, Text, some, none, List, [], ◌∷◌}
use Prim.Native.String.{String}
use pstu_backend.Core.Error.{AppError, ok, err}
use pstu_backend.Core.Limits.{max_login_failures}
use pstu_backend.Core.Text.{codes, trim}
use pstu_backend.Store.Events.{log_event, log_event_txn}
use pstu_backend.Auth.Login.{LoginRequest, find_login, login_response, login_user, login_locked}
use pstu_backend.Auth.Login.Lockout.{Attempt, AllRefuted, login_failures, logins, logins-locked}
use pstu_backend.Auth.Sessions.{
  Parts, PinResetReq, request_token, authenticate, logout_user, reset_pin,
}
use pstu_backend.Auth.Sessions.Opened.{LoggedIn, login_user-eq-ok, login_user-authenticated}
use pstu_backend.Auth.Sessions.Revoked.{reset_pin-revokes, logout_user-revokes}
use pstu_backend.Auth.Transactions.{new_user}
use pstu_backend.Store.Schema.{UserRow}
use pstu_backend.System.{login, serve}
use pstu_backend.Scenarios.Memory.{memory, memory_laws, memory-SessionLaws}
use pstu_backend.Scenarios.World.{State, alice, opened, fresh_account}

abbrev pub alices_login : String → LoginRequest
alices_login password = record { phone = codes " +8801700000001"; password = codes password }

abbrev pub alices_row : UserRow
alices_row =
    new_user (codes "Alice") (codes "+8801700000001") (codes "secret") (codes "1234")
      (fresh_account alice "A1")

abbrev pub phone_token : Text
phone_token = codes "f00d"

abbrev laptop_token : Text
laptop_token = codes "cafe"

-- Alice has logged in on the phone.
unfoldable pub one_session : State
unfolding opened serve login_user find_login trim log_event log_event_txn
one_session = serve memory (login phone_token 86400 (alices_login "secret") 40) opened

login_passes :
    (login_user memory laptop_token 86400 (alices_login "secret") 41 one_session).0
    ≡ ok (login_response alices_row 10000000, record { value = laptop_token; max_age = 86400 })
unfolding one_session login_user
login_passes = refl

-- Alice has logged in on the laptop too.
unfoldable two_sessions : State
unfolding one_session serve login_user
two_sessions = serve memory (login laptop_token 86400 (alices_login "secret") 41) one_session

abbrev pub by_phone : Parts
by_phone = record {
  authorization = some (codes "Bearer f00d");
  cookies = record { sid = none; pstu_session = none };
}

abbrev by_laptop : Parts
by_laptop = record {
  authorization = none;
  cookies = record { sid = some laptop_token; pstu_session = none };
}

pub by_phone_token : request_token by_phone ≡ some phone_token
unfolding request_token trim
by_phone_token = refl

by_laptop_token : request_token by_laptop ≡ some laptop_token
unfolding request_token
by_laptop_token = refl

login_user-eq-ok_example :
    (login_failures memory (trim (alices_login "secret").phone) one_session < max_login_failures)
    × (r : UserRow) × (b : ℕ) × LoggedIn memory laptop_token 86400
        (alices_login "secret")
        41
        one_session
        (login_response alices_row 10000000)
        (record { value = laptop_token; max_age = 86400 })
        r
        b
login_user-eq-ok_example =
    login_user-eq-ok memory laptop_token 86400 (alices_login "secret") 41 one_session
      (login_response alices_row 10000000) (record { value = laptop_token; max_age = 86400 })
      login_passes

login_user-authenticated_example :
    (authenticate memory by_laptop
      (login_user memory laptop_token 86400 (alices_login "secret") 41 one_session).1).0
    ≡ ok (record { user_id = alice; session_token = laptop_token })
unfolding trim
login_user-authenticated_example =
    login_user-authenticated memory laptop_token 86400 (alices_login "secret") 41 one_session
      memory-SessionLaws (login_response alices_row 10000000)
      (record { value = laptop_token; max_age = 86400 }) by_laptop login_passes (omega arith) refl
      by_laptop_token

abbrev new_pin : PinResetReq
new_pin = record { password = codes "secret"; new_pin = codes "9876" }

reset_passes : (reset_pin memory alice new_pin by_laptop.cookies 50 two_sessions).0 ≡ ok 50
unfolding two_sessions reset_pin
reset_passes = refl

-- The session on the phone is over, the one on the laptop goes on.
reset_pin-revokes_example :
    (authenticate memory by_phone
      (reset_pin memory alice new_pin by_laptop.cookies 50 two_sessions).1).0
    ≡ err (AppError.unauthorized "Session expired or invalid")
unfolding two_sessions trim
reset_pin-revokes_example =
    reset_pin-revokes memory alice new_pin by_laptop.cookies 50 two_sessions memory-SessionLaws 50
      by_phone phone_token reset_passes refl by_phone_token refl

laptop_stays :
    (authenticate memory by_laptop
      (reset_pin memory alice new_pin by_laptop.cookies 50 two_sessions).1).0
    ≡ ok (record { user_id = alice; session_token = laptop_token })
unfolding two_sessions reset_pin authenticate request_token
laptop_stays = refl

logout_user-revokes_example :
    (authenticate memory by_laptop (logout_user memory alice by_laptop.cookies 60 two_sessions).1).0
    ≡ err (AppError.unauthorized "Session expired or invalid")
unfolding trim
logout_user-revokes_example =
    logout_user-revokes memory memory-SessionLaws alice by_laptop.cookies 60 two_sessions by_laptop
      laptop_token refl by_laptop_token refl

abbrev guess : String → Attempt
guess password = record {
  req = alices_login password;
  token = codes "beef";
  session_ttl_secs = 86400;
  now = 70;
}

abbrev guesses : List Attempt
guesses = guess "111111" ∷ guess "222222" ∷ guess "333333" ∷ guess "444444" ∷ guess "555555" ∷ []

abbrev alices_phone : Text
alices_phone = codes "+8801700000001"

no_login_failures : login_failures memory alices_phone opened ≡ 0
unfolding opened
no_login_failures = refl

alice_found : find_login alices_phone opened.db ≡ some (alices_row, 10000000)
unfolding find_login opened
alice_found = refl

all_refuted : AllRefuted memory alices_phone (find_login alices_phone opened.db) guesses
unfolding find_login opened trim
all_refuted = (
  (refl, (refl, refl)),
  (
    (refl, (refl, refl)),
    ((refl, (refl, refl)), ((refl, (refl, refl)), ((refl, (refl, refl)), tt))),
  ),
)

-- After five wrong passwords the right one is refused.
logins-locked_example :
    login_user memory
      (codes "beef")
      86400
      (alices_login "secret")
      70
      (logins memory alices_phone guesses opened)
    ≡ (err login_locked, logins memory alices_phone guesses opened)
unfolding trim
logins-locked_example =
    logins-locked memory alices_phone memory_laws guesses (guess "secret") opened all_refuted
      (omega (arith, no_login_failures)) refl
