-- ===== src/Http/Validate.antt =====
-- The attributes `#[validate(…)]` of features/*/dto.rs, as the crate validator reads them: the
-- invalid fields with their messages, in the order of the fields. A length counts characters.
use Prim.Native.String.{String}
use pstu_backend.Prelude.{
  ℕ, Text, Bool, true, false, ◌&&◌, Option, none, some, List, [], ◌∷◌, ◌++◌, leb, length,
}
use pstu_backend.Core.Money.{pin_regex}
use pstu_backend.Auth.Dto.{RegisterRequest}
use pstu_backend.Auth.Login.{LoginRequest}
use pstu_backend.Auth.PinChange.{PinChangeReq}
use pstu_backend.Auth.Sessions.{PinResetReq}
use pstu_backend.Transfers.Dto.{CreateTransferRequest}
use pstu_backend.Requests.Dto.{CreateMoneyRequest, AcceptMoneyRequest}
use pstu_backend.Links.Dto.{CreatePaymentLinkRequest, ClaimPaymentLinkRequest}

abbrev pub Problems : Type 0
Problems = List (String × String)

abbrev pub check : Bool → String → String → Problems
check true field message = []
check false field message = (field, message) ∷ []

abbrev pub within : ℕ → ℕ → Text → Bool
within least most t = leb least (length t) && leb (length t) most

abbrev pub at_least : ℕ → Text → Bool
at_least least t = leb least (length t)

-- A field that is not given is valid.
abbrev pub at_most : ℕ → Option Text → Bool
at_most most none = true
at_most most (some t) = leb (length t) most

module _ (is_digit : ℕ → Bool) where
  unfoldable pub register_request : RegisterRequest → Problems
  register_request r =
      check (within 1 100 r.name) "name" "name must be between 1 and 100 characters"
      ++ check (within 8 20 r.phone) "phone"
          "phone must be a valid number between 8 and 20 characters"
      ++ check (within 8 128 r.password) "password" "password must be at least 8 characters"
      ++ check (pin_regex is_digit r.pin) "pin" "PIN must be 4 to 6 digits"

  unfoldable pub login_request : LoginRequest → Problems
  login_request r =
      check (within 8 20 r.phone) "phone" "phone must be a valid number"
      ++ check (at_least 1 r.password) "password" "password cannot be empty"

  unfoldable pub pin_change : PinChangeReq → Problems
  pin_change r = check (pin_regex is_digit r.new_pin) "new_pin" "new PIN must be 4 to 6 digits"

  unfoldable pub pin_reset : PinResetReq → Problems
  pin_reset r = check (pin_regex is_digit r.new_pin) "new_pin" "new PIN must be 4 to 6 digits"

  unfoldable pub transfer_request : CreateTransferRequest → Problems
  transfer_request r =
      check (at_least 1 r.recipient) "recipient" "recipient identifier cannot be empty"
      ++ check (at_least 1 r.amount_paisa) "amount_paisa" "amount cannot be empty"
      ++ check (at_most 200 r.note) "note" "note cannot exceed 200 characters"
      ++ check (pin_regex is_digit r.pin) "pin" "PIN must be 4 to 6 digits"

  unfoldable pub acceptance : AcceptMoneyRequest → Problems
  acceptance r = check (pin_regex is_digit r.pin) "pin" "PIN must be 4 to 6 digits"

  unfoldable pub link_request : CreatePaymentLinkRequest → Problems
  link_request r =
      check (at_least 1 r.amount_paisa) "amount_paisa" "amount cannot be empty"
      ++ check (at_most 120 r.note) "note" "note cannot exceed 120 characters"
      ++ check (pin_regex is_digit r.pin) "pin" "PIN must be 4 to 6 digits"

  unfoldable pub link_claim : ClaimPaymentLinkRequest → Problems
  link_claim r = check (pin_regex is_digit r.pin) "pin" "PIN must be 4 to 6 digits"

unfoldable pub money_request : CreateMoneyRequest → Problems
money_request r =
    check (at_least 1 r.debtor) "debtor" "debtor identifier cannot be empty"
    ++ check (at_least 1 r.amount_paisa) "amount_paisa" "amount cannot be empty"
    ++ check (at_most 200 r.note) "note" "note cannot exceed 200 characters"

-- The request of features/ai/dto.rs is its text.
unfoldable pub parse_request : Text → Problems
parse_request t = check (within 1 500 t) "text" "text must be between 1 and 500 characters"
