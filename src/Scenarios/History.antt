-- ===== src/Scenarios/History.antt =====
-- Alice pages through her transactions, downloads her statement and reads her notifications.
use pstu_backend.Prelude.{
  suc, ◌≡◌, refl, arith, Text, none, some, [], ◌∷◌, ◌++◌, map, length, i64_limit,
}
use pstu_backend.Core.Error.{Result, ok, err}
use pstu_backend.Core.Text.{to_text, print_digits}
use pstu_backend.Paging.Order.{Below, Distinct}
use pstu_backend.Paging.Walk.{walk}
use pstu_backend.Store.Schema.{TxHistoryRow}
use pstu_backend.History.Dto.{TransactionHistoryQuery, StatementQuery}
use pstu_backend.History.Service.{item}
use pstu_backend.History.Pages.{ask, matching, get_transactions-walk}
use pstu_backend.History.Statement.{order_asc, generate_statement_csv}
use pstu_backend.History.Statement.Limit.{rows}
use pstu_backend.History.Statement.Readable.{
  header_fields, fields, csv_records, generate_statement_csv-readable,
}
use pstu_backend.Scenarios.Memory.{memory}
use pstu_backend.Scenarios.World.{alice, paid}

-- All of her transactions, one at a time.
abbrev one_by_one : TransactionHistoryQuery
one_by_one = record {
  direction = none;
  kind = none;
  status = none;
  counterparty = none;
  from = none;
  to = none;
  amount_min = none;
  amount_max = none;
  q = none;
  cursor = none;
  limit = some 1;
}

paid_ids : map (λ (r : TxHistoryRow). r.id) paid.db.tx_history ≡ 1 ∷ 2 ∷ 3 ∷ 4 ∷ []
unfolding paid
paid_ids = refl

paid_Distinct : Distinct (λ (r : TxHistoryRow). r.id) paid.db.tx_history
unfolding paid
paid_Distinct =
    ((λ e. cc, (λ e. cc, (λ e. cc, tt))), ((λ e. cc, (λ e. cc, tt)), ((λ e. cc, tt), (tt, tt))))

paid_Below : Below (λ (r : TxHistoryRow). r.id) i64_limit paid.db.tx_history
unfolding paid
paid_Below = (omega arith, (omega arith, (omega arith, (omega arith, tt))))

get_transactions-walk_example :
    walk (ask memory alice one_by_one paid) (suc (length paid.db.tx_history)) none
    ≡ some (map (item paid.db) (matching memory alice one_by_one paid none none))
get_transactions-walk_example =
    get_transactions-walk memory alice one_by_one paid none none refl refl refl paid_Distinct
      paid_Below

-- Two transactions, the latest first.
alices_ids :
    map (λ (r : TxHistoryRow). r.id) (matching memory alice one_by_one paid none none) ≡ 3 ∷ 1 ∷ []
unfolding paid
alices_ids = refl

abbrev whole : StatementQuery
whole = record { from = none; to = none }

abbrev text_of : Result Text → Text
text_of (ok t) = t
text_of (err e) = []

unfoldable statement : Text
unfolding paid generate_statement_csv print_digits to_text
statement = text_of (generate_statement_csv memory alice whole paid).0

statement_made : (generate_statement_csv memory alice whole paid).0 ≡ ok statement
unfolding statement
statement_made = refl

generate_statement_csv-readable_example :
    csv_records statement
    ≡ header_fields ∷ map (fields memory paid.db) (order_asc (rows memory alice whole paid))
      ++ ([] ∷ []) ∷ []
unfolding paid print_digits to_text
generate_statement_csv-readable_example =
    generate_statement_csv-readable memory alice whole paid statement statement_made refl
