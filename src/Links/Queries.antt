-- ===== src/Links/Queries.antt =====
-- The queries of features/links/service.rs.
use pstu_backend.Prelude.{
  ℕ, ◌+◌, Uuid, Instant, Text, Bool, not, ◌&&◌, ◌||◌, Option, some, List, map, ◌==◌, take,
  where_rows, text_eq, first_row,
}
use pstu_backend.Core.Error.{AppError}
use pstu_backend.Core.Text.{codes}
use pstu_backend.Core.App.{Action, raise_if, ok_or_raise, query, ◌>>=◌, ◌>>◌}
use pstu_backend.Store.Schema.{
  Db, PaymentLinkRow, LinkStatus, active, claimed, expired, cancelled, EntityType,
}
use pstu_backend.Store.Statements.{same_key}
use pstu_backend.Store.Logs.{CounterpartyDto, ProcessEventDto, counterparty, entity_events}
use pstu_backend.Paging.{passes, page_limit, is_earlier, order_desc, take_page}
use pstu_backend.Links.Dto.{PaymentLinkDto, link_dto}

pub record GetMyLinksQuery : Type 0 where
  pub status : Option Text
  pub cursor : Option Instant
  pub limit : Option ℕ

-- A `PaymentLinkDto` with its `claimer`; its `url` is worked out of the token.
pub record LinkItem : Type 0 where
  pub link : PaymentLinkDto
  pub claimer : Option CounterpartyDto

pub record PaginatedLinksResponse : Type 0 where
  pub items : List LinkItem
  pub next_cursor : Option Instant

abbrev pub link_status_text : LinkStatus → Text
link_status_text active = codes "active"
link_status_text claimed = codes "claimed"
link_status_text expired = codes "expired"
link_status_text cancelled = codes "cancelled"

abbrev pub link_item : Db → PaymentLinkRow → LinkItem
link_item db l = record {
  link = link_dto l l.status l.claimed_at l.cancelled_at;
  claimer = counterparty l.claimer_id db;
}

abbrev pub link_matches : Uuid → GetMyLinksQuery → PaymentLinkRow → Bool
link_matches creator_id q l =
    l.creator_id == creator_id
    && passes (λ s. text_eq (link_status_text l.status) s) q.status
    && is_earlier q.cursor l.created_at

-- The rows that the query fetches. The order of rows of one instant is PostgreSQL's choice; here it
-- is that of the table.
abbrev pub fetch_links : Uuid → GetMyLinksQuery → Db → List PaymentLinkRow
fetch_links creator_id q db = take (page_limit q.limit + 1) (
    order_desc (λ (l : PaymentLinkRow). l.created_at)
      (where_rows (link_matches creator_id q) db.payment_links))

abbrev pub links_page : ℕ → Db → List PaymentLinkRow → PaginatedLinksResponse
links_page limit db rows =
    let (items, next_cursor) = take_page (λ (l : PaymentLinkRow). l.created_at) limit rows in
    record { items = map (link_item db) items; next_cursor = next_cursor }

abbrev pub find_link_id : Uuid → Db → Option PaymentLinkRow
find_link_id id db = first_row (λ (l : PaymentLinkRow). l.id == id) db.payment_links

abbrev pub is_link_party : Uuid → PaymentLinkRow → Bool
is_link_party actor_id l = actor_id == l.creator_id || same_key l.claimer_id (some actor_id)

module _ {C : Type 0} where
  unfoldable pub get_my_links : Uuid → GetMyLinksQuery → Action C PaginatedLinksResponse
  get_my_links creator_id q =
      query λ db. links_page (page_limit q.limit) db (fetch_links creator_id q db)

  unfoldable pub get_link_events : Uuid → Uuid → Action C (List ProcessEventDto)
  get_link_events actor_id link_id = do
    row ← query (find_link_id link_id)
    l ← ok_or_raise (AppError.not_found "Payment link not found") row
    raise_if (not (is_link_party actor_id l)) (AppError.not_found "Payment link not found")
    query (entity_events EntityType.link link_id)
