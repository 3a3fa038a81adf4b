-- ===== src/Auth/Register.antt =====
-- features/auth/service.rs: `register_user`.
use pstu_backend.Prelude.{Text, text_eq}
use pstu_backend.Core.Error.{AppError}
use pstu_backend.Core.Limits.{seed_balance_paisa}
use pstu_backend.Core.Text.{trim, to_text}
use pstu_backend.Core.Services.{Services}
use pstu_backend.Core.App.{Action, pure, raise_if, ok_or_raise, query, transaction, ◌>>=◌, ◌>>◌}
use pstu_backend.Store.Schema.{UserRow}
use pstu_backend.Store.Statements.{exists_row}
use pstu_backend.Auth.Dto.{RegisterRequest, RegisterResponse, FreshAccount}
use pstu_backend.Auth.Transactions.{new_user, open_account}

abbrev pub register_response : RegisterRequest → FreshAccount → RegisterResponse
register_response req f = record {
  id = f.user_id;
  account_number = f.account_number;
  name = trim req.name;
  phone = trim req.phone;
  balance = to_text seed_balance_paisa;
  created_at = f.now;
}

module _ (S : Services) where
  open S use {Cache, hash_password}

  -- The check of the phone number, and the hashes of password and PIN.
  unfoldable pub check_account : RegisterRequest → Action Cache (Text × Text)
  check_account req = do
    taken ← query λ db. exists_row (λ (r : UserRow). text_eq r.phone (trim req.phone)) db.users
    raise_if taken (AppError.conflict "Phone number is already registered")
    password_hash ←
        ok_or_raise (AppError.internal "Failed to hash password") (hash_password req.password)
    pin_hash ← ok_or_raise (AppError.internal "Failed to hash PIN") (hash_password req.pin)
    pure (password_hash, pin_hash)

  unfoldable pub register_user : RegisterRequest → FreshAccount → Action Cache RegisterResponse
  unfolding check_account
  register_user req f = do
    hashes ← check_account req
    transaction (open_account (new_user (trim req.name) (trim req.phone) hashes.0 hashes.1 f) f)
    pure (register_response req f)
