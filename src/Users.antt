-- ===== src/Users.antt =====
-- features/users/service.rs: how an identifier finds its user.
pub mod Routes
use pstu_backend.Prelude.{
  Uuid, Text, Bool, true, false, ◌&&◌, Option, none, some, List, [], ◌∷◌, ◌==◌, if◌then◌else◌,
  length, first_row, text_eq, where_rows,
}
use pstu_backend.Core.Error.{AppError, Result, ok, err}
use pstu_backend.Core.Services.{Services}
use pstu_backend.Core.Text.{trim, is_ascii_digit}
use pstu_backend.Store.Schema.{Db, UserRow, UserStatus}
use pstu_backend.Store.Statements.{find_user}

-- `starts_with`
abbrev pub starts_with : Text → Text → Bool
starts_with [] s = true
starts_with (p ∷ ps) [] = false
starts_with (p ∷ ps) (c ∷ s) = p == c && starts_with ps s

unfoldable pub normalize_phone : Text → Text
normalize_phone raw =
    let digits_only = where_rows is_ascii_digit (trim raw) in
    if starts_with (b'0' ∷ b'1' ∷ []) digits_only && length digits_only == 11
    then b'+' ∷ b'8' ∷ b'8' ∷ digits_only
    else if starts_with (b'8' ∷ b'8' ∷ b'0' ∷ b'1' ∷ []) digits_only && length digits_only == 13
    then b'+' ∷ digits_only
    else trim raw

-- A row that was found: its user, if active.
unfoldable pub active_user : UserRow → Result Uuid
active_user r = elim r.status [
  | UserStatus.active ↦ ok r.id
  | UserStatus.suspended ↦
      err (AppError.unprocessable "Counterparty account is inactive or suspended")
  | UserStatus.locked ↦ err (AppError.unprocessable "Counterparty account is inactive or suspended")
]

abbrev or_else {ℓ} : {A : Type ℓ} → Option A → Option A → Option A
or_else none b = b
or_else (some a) b = some a

-- `WHERE account_number = $1 OR phone = $1 OR phone = $2 ORDER BY (account_number = $1) DESC,
-- (phone = $2) DESC LIMIT 1`: the first in the order of the two keys.
unfoldable pub find_by_identifier : Text → Text → List UserRow → Option UserRow
find_by_identifier identifier phone users =
    or_else (first_row (λ r. text_eq r.account_number identifier && text_eq r.phone phone) users) (
      or_else (first_row (λ r. text_eq r.account_number identifier) users) (
        or_else (first_row (λ r. text_eq r.phone phone) users)
          (first_row (λ r. text_eq r.phone identifier) users)))

unfoldable pub lookup_identifier : Text → Db → Result Uuid
unfolding find_by_identifier active_user
lookup_identifier trimmed db =
    elim (find_by_identifier trimmed (normalize_phone trimmed) db.users) [
      | none ↦ err (AppError.not_found "Recipient not found")
      | some r ↦ active_user r
    ]

module _ (S : Services) where
  -- The user with the id that the text spells, if there is one.
  abbrev by_uuid : Text → Db → Option UserRow
  by_uuid trimmed db = elim (S.parse_uuid trimmed) [ none ↦ none | some id ↦ find_user id db.users ]

  -- `resolve_recipient_user`
  unfoldable pub resolve_recipient_user : Text → Db → Result Uuid
  unfolding lookup_identifier active_user
  resolve_recipient_user identifier db = elim (by_uuid (trim identifier) db) [
    | some r ↦ active_user r
    | none ↦ lookup_identifier (trim identifier) db
  ]
