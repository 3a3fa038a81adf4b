-- ===== src/History/Statement/Limit.antt =====
-- A statement is of all its rows, or it is refused.
use pstu_backend.Prelude.{
  ℕ, suc, ◌+◌, ◌≡◌, refl, arith, Uuid, List, [], ◌∷◌, ◌++◌, ltb, if◌then◌else◌, Bool-cases, inl,
  inr, length, length-take, take, take_whole, where_rows,
}
use pstu_backend.Core.Error.{AppError, ok, err}
use pstu_backend.Core.Services.{Services}
use pstu_backend.Core.App.{AppState}
use pstu_backend.Store.Schema.{TxHistoryRow}
use pstu_backend.History.Dto.{StatementQuery}
use pstu_backend.History.Statement.{
  max_statement_rows, statement_matches, insert_asc, order_asc, csv_header, csv_lines,
  generate_statement_csv,
}

length-insert_asc :
    (x : TxHistoryRow) (ys : List TxHistoryRow) → length (insert_asc x ys) ≡ suc (length ys)
length-insert_asc x [] = refl
length-insert_asc x (y ∷ ys) = ground (arith, length-insert_asc x ys)

length-order_asc : (xs : List TxHistoryRow) → length (order_asc xs) ≡ length xs
length-order_asc [] = refl
length-order_asc (x ∷ xs) = omega (arith, length-insert_asc x (order_asc xs), length-order_asc xs)

cut_refused :
    (n : ℕ) (xs : List TxHistoryRow) → ltb n (length (take (n + 1) xs)) ≡ ltb n (length xs)
cut_refused n xs = ground (arith, length-take (n + 1) xs)

module _ (S : Services) (u : Uuid) (q : StatementQuery) (s : AppState S.Cache) where
  -- The rows of the statement, in no order.
  abbrev pub rows : List TxHistoryRow
  rows = where_rows (statement_matches u q) s.db.tx_history

  -- A statement of more than 10,000 rows is refused; any other is the header and the lines of all
  -- the user's completed rows in the range, in the order of their ids: the LIMIT of the query loses
  -- none.
  pub generate_statement_csv-whole : (generate_statement_csv S u q s).0 ≡ (
      if ltb max_statement_rows (length rows)
      then err (
          AppError.unprocessable
            "Statement range contains too many records (max 10,000). Please narrow your date range.")
      else ok (csv_header ++ csv_lines S s.db (order_asc rows)))
  unfolding generate_statement_csv
  generate_statement_csv-whole = elim (Bool-cases (ltb max_statement_rows (length rows))) [
    | inl many ↦
        ground (arith, many, cut_refused max_statement_rows (order_asc rows), length-order_asc rows)
    | inr few ↦ ground (
      arith,
      few,
      length-order_asc rows,
      take_whole (max_statement_rows + 1) (order_asc rows)
          (ground (arith, few, length-order_asc rows)),
    )
  ]
