-- ===== src/History/Pages.antt =====
-- The pages of `get_transactions`, one after another.
use pstu_backend.Prelude.{
  ℕ, suc, ◌≡◌, arith, Uuid, true, Option, none, some, List, [], map, length, where_rows, i64_limit,
}
use pstu_backend.Core.Error.{Result, ok, err}
use pstu_backend.Core.Services.{Services}
use pstu_backend.Core.App.{AppState}
use pstu_backend.Store.Schema.{TxHistoryRow}
use pstu_backend.Paging.{order_desc}
use pstu_backend.Paging.Order.{Below, Distinct}
use pstu_backend.Paging.Walk.{walk}
use pstu_backend.Paging.Table.{walk_table}
use pstu_backend.History.Dto.{
  TransactionHistoryQuery, TransactionItemDto, PaginatedTransactionsResponse, is_direction,
  amount_bound,
}
use pstu_backend.History.Service.{item, transaction_matches, get_transactions}

abbrev page_of : Result PaginatedTransactionsResponse → List TransactionItemDto × Option ℕ
page_of (ok p) = (p.items, p.next_cursor)
page_of (err e) = ([], none)

module _ (S : Services) (u : Uuid) (q : TransactionHistoryQuery) (s : AppState S.Cache) where
  -- What the service answers to the query at a cursor.
  abbrev pub ask : Option ℕ → List TransactionItemDto × Option ℕ
  ask c = page_of (get_transactions S u (record q { cursor = c }) s).0

  module _ (min_paisa max_paisa : Option ℕ) where
    -- The rows that the query is after, the latest first.
    abbrev pub matching : List TxHistoryRow
    matching =
        order_desc (λ (r : TxHistoryRow). r.id)
          (where_rows (transaction_matches S u q min_paisa max_paisa s.db) s.db.tx_history)

    -- For a query with a valid direction and amounts, over rows with distinct ids below 2 ^ 63:
    -- asking for page after page by the cursors ends after at most one page more than there are
    -- rows, and the pages together are the items of exactly the rows that match the query, each
    -- once, the latest first, whatever the page limit.
    pub get_transactions-walk :
        (is_direction q.direction ≡ true)
        → amount_bound S.is_digit "amount_min" q.amount_min ≡ ok min_paisa
        → amount_bound S.is_digit "amount_max" q.amount_max ≡ ok max_paisa
        → Distinct (λ (r : TxHistoryRow). r.id) s.db.tx_history
        → Below (λ (r : TxHistoryRow). r.id) i64_limit s.db.tx_history
        → walk ask (suc (length s.db.tx_history)) none ≡ some (map (item s.db) matching)
    unfolding get_transactions
    get_transactions-walk dir low high d b =
        walk_table (λ (r : TxHistoryRow). r.id) (item s.db)
          (transaction_matches S u q min_paisa max_paisa s.db) q.limit s.db.tx_history ask
          (λ c. ground (arith, dir, low, high)) d b
