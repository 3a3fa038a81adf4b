-- ===== src/History/Routes.antt =====
-- features/history/routes.rs
use Prim.Native.String.{String}
use pstu_backend.Prelude.{ℕ, Uuid, Text, Option, List, [], ◌∷◌}
use pstu_backend.Core.Services.{Services}
use pstu_backend.Core.App.{Action, pure, ◌>>=◌}
use pstu_backend.Auth.Sessions.{Parts, authenticate}
use pstu_backend.Store.Logs.{ProcessEventDto}
use pstu_backend.History.Dto.{
  TransactionHistoryQuery, PaginatedTransactionsResponse, StatementQuery,
}
use pstu_backend.History.Service.{get_transactions, get_user_activity}
use pstu_backend.History.Statement.{generate_statement_csv}
use pstu_backend.Http.{Reply, ApiResponse, answer}

-- A body that is not JSON, with its headers.
pub record Document : Type 0 where
  pub headers : List (String × String)
  pub text : Text

pub record ActivityQuery : Type 0 where
  pub cursor : Option ℕ
  pub limit : Option ℕ

module _ (S : Services) where
  open S use {Cache}

  unfoldable pub get_transactions_handler :
      Parts
      → TransactionHistoryQuery
      → Uuid
      → Action Cache (Reply (ApiResponse PaginatedTransactionsResponse))
  get_transactions_handler parts params trace = do
    auth_user ← authenticate S parts
    res ← get_transactions S auth_user.user_id params
    answer S 200 trace res

  unfoldable pub get_statement_csv_handler : Parts → StatementQuery → Action Cache (Reply Document)
  get_statement_csv_handler parts params = do
    auth_user ← authenticate S parts
    csv_content ← generate_statement_csv S auth_user.user_id params
    pure (record {
      status = 200;
      body = record {
        headers =
            ("content-type", "text/csv; charset=utf-8")
            ∷ ("content-disposition", "attachment; filename=\"statement.csv\"")
            ∷ [];
        text = csv_content;
      };
    })

  unfoldable pub get_activity_handler :
      Parts → ActivityQuery → Uuid → Action Cache (Reply (ApiResponse (List ProcessEventDto)))
  get_activity_handler parts params trace = do
    auth_user ← authenticate S parts
    events ← get_user_activity S auth_user.user_id params.cursor params.limit
    answer S 200 trace events
