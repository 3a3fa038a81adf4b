-- ===== src/History/Service.antt =====
-- features/history/service.rs
use pstu_backend.Prelude.{
  ℕ, ◌+◌, Uuid, Text, Bool, false, not, ◌&&◌, ◌||◌, Option, none, some, List, [], ◌∷◌, ◌++◌, map,
  leb, ◌==◌, take, where_rows, text_eq,
}
use pstu_backend.Core.Error.{AppError}
use pstu_backend.Core.Services.{Services}
use pstu_backend.Core.Text.{to_text}
use pstu_backend.Core.App.{Action, raise_if, lift, query, ◌>>=◌, ◌>>◌}
use pstu_backend.Store.Schema.{Db, UserRow, TxHistoryRow, ProcessEventRow}
use pstu_backend.Store.Statements.{same_key}
use pstu_backend.Store.Logs.{ProcessEventDto, joined_user, counterparty, numbered, event_dto}
use pstu_backend.Paging.{passes, page_limit, is_before, order_desc, take_page}
use pstu_backend.History.Dto.{
  TransactionHistoryQuery, TransactionItemDto, PaginatedTransactionsResponse, status_text,
  kind_text, direction_text, is_direction, normalized_direction, amount_bound,
}

abbrev pub item : Db → TxHistoryRow → TransactionItemDto
item db r = record {
  id = r.id;
  reference = r.reference;
  kind = kind_text r.kind;
  direction = direction_text r.direction;
  status = status_text r.status;
  amount_paisa = to_text r.amount_paisa;
  running_balance = to_text r.balance_after;
  counterparty = counterparty r.counterparty_id db;
  note = r.note;
  created_at = r.created_at;
}

abbrev pub or_query : Option Text → Option Text → Option Text
or_query none q = q
or_query (some c) q = some c

module _ (S : Services) where
  open S use {Cache, ilike, is_digit, rfc3339}

  -- The columns of the joined user that a search goes through.
  abbrev user_matches : Text → Option UserRow → Bool
  user_matches needle none = false
  user_matches needle (some u) =
      ilike u.name (b'%' ∷ needle ++ b'%' ∷ [])
      || text_eq u.phone needle
      || text_eq u.account_number needle

  abbrev pub search_matches : Db → TxHistoryRow → Text → Bool
  search_matches db r needle =
      ilike r.reference (needle ++ b'%' ∷ [])
      || user_matches needle (joined_user r.counterparty_id db)

  -- The WHERE clause but for the cursor.
  abbrev pub transaction_matches :
      Uuid → TransactionHistoryQuery → Option ℕ → Option ℕ → Db → TxHistoryRow → Bool
  transaction_matches user_id q min_paisa max_paisa db r =
      r.user_id == user_id
      && passes (λ d. text_eq (direction_text r.direction) d) (normalized_direction q.direction)
      && passes (λ k. text_eq (kind_text r.kind) k) q.kind
      && passes (λ s. text_eq (status_text r.status) s) q.status
      && passes (λ t. leb t r.created_at) q.from
      && passes (λ t. leb r.created_at t) q.to
      && passes (λ n. leb n r.amount_paisa) min_paisa
      && passes (λ n. leb r.amount_paisa n) max_paisa
      && passes (search_matches db r) (or_query q.counterparty q.q)

  -- The rows that the query fetches.
  abbrev pub fetch_transactions :
      Uuid → TransactionHistoryQuery → Option ℕ → Option ℕ → Db → List TxHistoryRow
  fetch_transactions user_id q min_paisa max_paisa db = take (page_limit q.limit + 1) (
      order_desc (λ (r : TxHistoryRow). r.id)
        (where_rows
          (λ r. is_before q.cursor r.id && transaction_matches user_id q min_paisa max_paisa db r)
          db.tx_history))

  abbrev pub transactions_page : ℕ → Db → List TxHistoryRow → PaginatedTransactionsResponse
  transactions_page limit db rows =
      let (items, next_cursor) = take_page (λ (r : TxHistoryRow). r.id) limit rows in
      record { items = map (item db) items; next_cursor = next_cursor }

  unfoldable pub get_transactions :
      Uuid → TransactionHistoryQuery → Action Cache PaginatedTransactionsResponse
  get_transactions user_id q = do
    raise_if (not (is_direction q.direction))
        (AppError.bad_request "Invalid direction filter: must be 'sent' or 'received'")
    min_paisa ← lift (amount_bound is_digit "amount_min" q.amount_min)
    max_paisa ← lift (amount_bound is_digit "amount_max" q.amount_max)
    query λ db.
        transactions_page (page_limit q.limit) db
          (fetch_transactions user_id q min_paisa max_paisa db)

  -- `actor_id = $1 OR entity_id = $1`
  abbrev pub concerns : Uuid → ProcessEventRow → Bool
  concerns user_id e = same_key e.actor_id (some user_id) || e.entity_id == user_id

  unfoldable pub get_user_activity :
      Uuid → Option ℕ → Option ℕ → Action Cache (List ProcessEventDto)
  get_user_activity user_id cursor limit = query λ db. map (event_dto db) (
      take (page_limit limit) (
        order_desc (λ (e : ℕ × ProcessEventRow). e.0)
          (where_rows (λ e. concerns user_id e.1 && is_before cursor e.0)
            (numbered 0 db.process_events))))
