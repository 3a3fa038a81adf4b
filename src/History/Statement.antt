-- ===== src/History/Statement.antt =====
-- `generate_statement_csv` of features/history/service.rs.
pub mod Limit
pub mod Readable
pub mod References
use pstu_backend.Prelude.{
  ℕ, Uuid, Text, Bool, true, false, ◌&&◌, Option, none, some, List, [], ◌∷◌, ◌++◌, ltb, leb, ◌==◌,
  if◌then◌else◌, length, take, where_rows,
}
use pstu_backend.Core.Error.{AppError, Result, ok, err}
use pstu_backend.Core.Services.{Services}
use pstu_backend.Core.Text.{codes, to_text}
use pstu_backend.Core.App.{Action, query, lift, ◌>>=◌}
use pstu_backend.Store.Schema.{Db, TxHistoryRow, TransferStatus, completed, rejected, flagged}
use pstu_backend.Store.Logs.{CounterpartyDto, counterparty}
use pstu_backend.History.Dto.{StatementQuery, kind_text, direction_text}
use pstu_backend.Paging.{passes}

abbrev pub max_statement_rows : ℕ
max_statement_rows = 10000

abbrev is_completed : TransferStatus → Bool
is_completed completed = true
is_completed rejected = false
is_completed flagged = false

-- The WHERE clause.
abbrev pub statement_matches : Uuid → StatementQuery → TxHistoryRow → Bool
statement_matches user_id q r =
    r.user_id == user_id
    && is_completed r.status
    && passes (λ t. leb t r.created_at) q.from
    && passes (λ t. leb r.created_at t) q.to

-- `ORDER BY id ASC`
abbrev pub insert_asc : TxHistoryRow → List TxHistoryRow → List TxHistoryRow
insert_asc x [] = x ∷ []
insert_asc x (y ∷ ys) = let rest = insert_asc x ys in if ltb y.id x.id then y ∷ rest else x ∷ y ∷ ys

abbrev pub order_asc : List TxHistoryRow → List TxHistoryRow
order_asc [] = []
order_asc (x ∷ xs) = insert_asc x (order_asc xs)

abbrev pub csv_header : Text
csv_header = codes "reference,created_at,kind,direction,amount,running_balance,counterparty\n"

-- The last two arms of the source's match do not arise: a row has both columns of the joined user
-- or none of them.
abbrev pub counterparty_display : Option CounterpartyDto → Text
counterparty_display none = []
counterparty_display (some u) = u.name ++ codes " (" ++ u.account_number ++ codes ")"

-- `format!("{},{},{},{},{},{},\"{}\"\n", …)`: each field with its comma, and the last one in quotes.
abbrev pub format_line : List Text → Text → Text
format_line [] d = b'"' ∷ d ++ b'"' ∷ b'\n' ∷ []
format_line (t ∷ ts) d = t ++ b',' ∷ format_line ts d

module _ (S : Services) where
  open S use {Cache, rfc3339}

  abbrev pub csv_line : Db → TxHistoryRow → Text
  csv_line db r =
      format_line
        (r.reference
          ∷ rfc3339 r.created_at
          ∷ kind_text r.kind
          ∷ direction_text r.direction
          ∷ to_text r.amount_paisa
          ∷ to_text r.balance_after
          ∷ [])
        (counterparty_display (counterparty r.counterparty_id db))

  abbrev pub csv_lines : Db → List TxHistoryRow → Text
  csv_lines db [] = []
  csv_lines db (r ∷ rows) = csv_line db r ++ csv_lines db rows

  abbrev pub statement_of : Db → List TxHistoryRow → Result Text
  statement_of db rows =
      if ltb max_statement_rows (length rows)
      then err (
          AppError.unprocessable
            "Statement range contains too many records (max 10,000). Please narrow your date range.")
      else ok (csv_header ++ csv_lines db rows)

  unfoldable pub generate_statement_csv : Uuid → StatementQuery → Action Cache Text
  generate_statement_csv user_id q s = (
    statement_of s.db
        (take 10001 (order_asc (where_rows (statement_matches user_id q) s.db.tx_history))),
    s,
  )
