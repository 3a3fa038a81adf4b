-- ===== src/Users/Routes.antt =====
-- features/users: dto.rs, and routes.rs with its queries.
use pstu_backend.Prelude.{
  ℕ, Uuid, Instant, Text, Bool, not, ◌||◌, Option, none, some, List, [], ◌∷◌, ◌++◌, map, text_eq,
  take, where_rows, first_row, unwrap_or, if◌then◌else◌,
}
use pstu_backend.Core.Error.{AppError}
use pstu_backend.Core.Services.{Services}
use pstu_backend.Core.Text.{trim, to_text}
use pstu_backend.Core.App.{Action, ok_or_raise, query, ◌>>=◌}
use pstu_backend.Store.Schema.{Db, UserRow}
use pstu_backend.Store.Statements.{find_user, balance_of}
use pstu_backend.Paging.{order_desc}
use pstu_backend.Auth.Sessions.{Parts, is_blank, authenticate}
use pstu_backend.Http.{Reply, ApiResponse, answer}

pub record UserProfileResponse : Type 0 where
  pub id : Uuid
  pub name : Text
  pub phone : Text
  pub account_number : Text
  pub balance : Text
  pub created_at : Instant

pub record UserLookupDto : Type 0 where
  pub id : Uuid
  pub name : Text
  pub account_number : Text
  pub phone : Text

pub record PublicUserRes : Type 0 where
  pub name : Text
  pub account_number : Text

abbrev pub profile : UserRow → ℕ → UserProfileResponse
profile u amount_paisa = record {
  id = u.id;
  name = u.name;
  phone = u.phone;
  account_number = u.account_number;
  balance = to_text amount_paisa;
  created_at = u.created_at;
}

-- `SELECT … FROM users u JOIN balances b ON b.user_id = u.id WHERE u.id = $1`
abbrev pub find_profile : Uuid → Db → Option UserProfileResponse
find_profile user_id db = elim (find_user user_id db.users) [
  | none ↦ none
  | some u ↦ elim (balance_of u.id db) [ none ↦ none | some amount ↦ some (profile u amount) ]
]

abbrev pub lookup_dto : UserRow → UserLookupDto
lookup_dto u = record {
  id = u.id;
  name = u.name;
  account_number = u.account_number;
  phone = u.phone;
}

abbrev pub public_user : UserRow → PublicUserRes
public_user u = record { name = u.name; account_number = u.account_number }

-- `phone = $1 OR account_number = $1`
abbrev pub is_exact : Text → UserRow → Bool
is_exact q u = text_eq u.phone q || text_eq u.account_number q

-- `similarity(name, $1)` of pg_trgm is a parameter, as a number in the order of its values.
module _ (S : Services) (similarity : Text → Text → ℕ) where
  open S use {Cache, ilike}

  -- The WHERE clause.
  abbrev pub lookup_matches : Text → UserRow → Bool
  lookup_matches q u = is_exact q u || ilike u.name (b'%' ∷ q ++ b'%' ∷ [])

  -- `ORDER BY (phone = $1 OR account_number = $1) DESC, similarity(name, $1) DESC LIMIT 10`
  unfoldable pub fetch_users : Text → Db → List UserRow
  fetch_users q db =
      let found = where_rows (lookup_matches q) db.users in
      let key = λ (u : UserRow). similarity u.name q in
      take 10 (
        order_desc key (where_rows (is_exact q) found)
        ++ order_desc key (where_rows (λ u. not (is_exact q u)) found))

  unfoldable pub get_me_handler :
      Parts → Uuid → Action Cache (Reply (ApiResponse UserProfileResponse))
  get_me_handler parts trace = do
    auth_user ← authenticate S parts
    row ← query (find_profile auth_user.user_id)
    me ← ok_or_raise (AppError.not_found "User not found") row
    answer S 200 trace me

  unfoldable pub lookup_users_handler :
      Parts → Option Text → Uuid → Action Cache (Reply (ApiResponse (List UserLookupDto)))
  lookup_users_handler parts params trace = do
    auth_user ← authenticate S parts
    let q = trim (unwrap_or [] params)
    users ←
        query λ db. if is_blank (unwrap_or [] params) then [] else map lookup_dto (fetch_users q db)
    answer S 200 trace users

  unfoldable pub get_public_user_handler :
      Text → Uuid → Action Cache (Reply (ApiResponse PublicUserRes))
  get_public_user_handler account_number trace = do
    row ←
        query
          λ db. first_row (λ (u : UserRow). text_eq u.account_number (trim account_number)) db.users
    user ← ok_or_raise (AppError.not_found "User not found") row
    answer S 200 trace (public_user user)
