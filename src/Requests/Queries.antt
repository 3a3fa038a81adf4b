-- ===== src/Requests/Queries.antt =====
-- The queries of features/requests/service.rs.
use pstu_backend.Prelude.{
  ℕ, ◌+◌, Uuid, Instant, Text, Bool, not, ◌&&◌, ◌||◌, Option, none, some, List, [], ◌∷◌, ◌==◌, take,
  where_rows, unwrap_or, text_eq,
}
use pstu_backend.Core.Error.{AppError}
use pstu_backend.Core.Text.{codes}
use pstu_backend.Core.App.{Action, raise_if, ok_or_raise, query, ◌>>=◌, ◌>>◌}
use pstu_backend.Store.Schema.{Db, UserRow, MoneyRequestRow, EntityType}
use pstu_backend.Store.Statements.{find_user}
use pstu_backend.Store.Logs.{ProcessEventDto, entity_events}
use pstu_backend.Paging.{passes, page_limit, is_earlier, order_desc, take_page}
use pstu_backend.Requests.Dto.{MoneyRequestDto, request_dto, status_text, find_request}

pub record GetRequestsQuery : Type 0 where
  pub status : Option Text
  pub role : Option Text
  pub cursor : Option Instant
  pub limit : Option ℕ

pub record CounterpartyDto : Type 0 where
  pub id : Uuid
  pub name : Text
  pub account_number : Text

-- A `MoneyRequestDto` with its `requester` and `debtor`.
pub record RequestItem : Type 0 where
  pub request : MoneyRequestDto
  pub requester : CounterpartyDto
  pub debtor : CounterpartyDto

pub record PaginatedRequestsResponse : Type 0 where
  pub items : List RequestItem
  pub next_cursor : Option Instant

abbrev counterparty_of : UserRow → CounterpartyDto
counterparty_of u = record { id = u.id; name = u.name; account_number = u.account_number }

abbrev item_of : MoneyRequestRow → Option UserRow → Option UserRow → Option RequestItem
item_of r none debtor = none
item_of r (some requester) none = none
item_of r (some requester) (some debtor) = some (record {
  request = request_dto r r.status r.resolved_at;
  requester = counterparty_of requester;
  debtor = counterparty_of debtor;
})

abbrev cons_some : Option RequestItem → List RequestItem → List RequestItem
cons_some none items = items
cons_some (some i) items = i ∷ items

-- `JOIN users req_u … JOIN users deb_u …`
abbrev pub joined_requests : Db → List MoneyRequestRow → List RequestItem
joined_requests db [] = []
joined_requests db (r ∷ rows) =
    cons_some (item_of r (find_user r.requester_id db.users) (find_user r.debtor_id db.users))
      (joined_requests db rows)

-- The first condition of the WHERE clause.
abbrev pub role_matches : Text → Uuid → MoneyRequestRow → Bool
role_matches role actor_id r =
    ((text_eq role (codes "incoming") || text_eq role (codes "debtor")) && r.debtor_id == actor_id)
    || ((text_eq role (codes "outgoing") || text_eq role (codes "requester"))
        && r.requester_id == actor_id)
    || (text_eq role (codes "all") && (r.debtor_id == actor_id || r.requester_id == actor_id))

abbrev pub request_matches : Uuid → GetRequestsQuery → MoneyRequestRow → Bool
request_matches actor_id q r =
    role_matches (unwrap_or (codes "all") q.role) actor_id r
    && passes (λ s. text_eq (codes (status_text r.status)) s) q.status
    && is_earlier q.cursor r.created_at

-- The rows that the query fetches. The order of rows of one instant is PostgreSQL's choice; here it
-- is that of the table.
abbrev pub fetch_requests : Uuid → GetRequestsQuery → Db → List RequestItem
fetch_requests actor_id q db = take (page_limit q.limit + 1) (
    order_desc (λ (i : RequestItem). i.request.created_at)
      (joined_requests db (where_rows (request_matches actor_id q) db.money_requests)))

abbrev pub requests_page : ℕ → List RequestItem → PaginatedRequestsResponse
requests_page limit rows =
    let (items, next_cursor) = take_page (λ (i : RequestItem). i.request.created_at) limit rows in
    record { items = items; next_cursor = next_cursor }

abbrev pub is_request_party : Uuid → MoneyRequestRow → Bool
is_request_party actor_id r = actor_id == r.requester_id || actor_id == r.debtor_id

module _ {C : Type 0} where
  unfoldable pub get_requests : Uuid → GetRequestsQuery → Action C PaginatedRequestsResponse
  get_requests actor_id q =
      query λ db. requests_page (page_limit q.limit) (fetch_requests actor_id q db)

  unfoldable pub get_request_events : Uuid → Uuid → Action C (List ProcessEventDto)
  get_request_events actor_id request_id = do
    row ← query (find_request request_id)
    r ← ok_or_raise (AppError.not_found "Money request not found") row
    raise_if (not (is_request_party actor_id r)) (AppError.not_found "Money request not found")
    query (entity_events EntityType.request request_id)
