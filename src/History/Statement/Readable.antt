-- ===== src/History/Statement/Readable.antt =====
-- A reader of CSV, quoted fields and all, gets the rows of a statement back.
use pstu_backend.Prelude.{
  ℕ, ◌≡◌, refl, arith, Uuid, Text, Bool, true, not, ◌&&◌, ◌||◌, List, [], ◌∷◌, ◌++◌, map, ◌==◌,
  if◌then◌else◌, ltb, Bool-cases, inl, inr, length,
}
use pstu_backend.Core.Error.{ok}
use pstu_backend.Core.Services.{Services}
use pstu_backend.Core.App.{AppState}
use pstu_backend.Core.Text.{codes, to_text}
use pstu_backend.Core.Money.RoundTrip.{AllDigits, print_digits-AllDigits}
use pstu_backend.Store.Schema.{Db, TxHistoryRow, HistoryKind, HistoryDirection, sent, received}
use pstu_backend.Store.Logs.{counterparty}
use pstu_backend.History.Dto.{StatementQuery, kind_text, direction_text}
use pstu_backend.History.Statement.{
  max_statement_rows, order_asc, counterparty_display, csv_header, format_line, csv_line, csv_lines,
  generate_statement_csv,
}
use pstu_backend.History.Statement.Limit.{rows, generate_statement_csv-whole}

-- Outside quotes, inside, and after a quote inside, which ends them or is doubled.
pub data Mode : Type 0 where
  plain quoted closing : Mode

abbrev next_mode : Mode → ℕ → Mode
next_mode plain c = if c == b'"' then quoted else plain
next_mode quoted c = if c == b'"' then closing else quoted
next_mode closing c = if c == b'"' then quoted else plain

-- A field, the other fields of its record, and the other records.
abbrev Read : Type 0
Read = Text × List Text × List (List Text)

abbrev put_char : ℕ → Read → Read
put_char c (f, fs, rs) = (c ∷ f, fs, rs)

-- A character that no quotes surround.
abbrev put_bare : ℕ → Read → Read
put_bare c (f, fs, rs) =
    if c == b','
    then ([], f ∷ fs, rs)
    else if c == b'\n'
    then ([], [], (f ∷ fs) ∷ rs)
    else (c ∷ f, fs, rs)

abbrev put_read : Mode → ℕ → Read → Read
put_read plain c r = if c == b'"' then r else put_bare c r
put_read quoted c r = if c == b'"' then r else put_char c r
put_read closing c r = if c == b'"' then put_char c r else put_bare c r

unfoldable pub read : Mode → Text → Read
read m [] = ([], [], [])
read m (c ∷ s) = let rest = read (next_mode m c) s in put_read m c rest

-- The records of a text; after a line break at the end comes one more, with one empty field.
unfoldable pub csv_records : Text → List (List Text)
unfolding read
csv_records s = let (f, fs, rs) = read plain s in (f ∷ fs) ∷ rs

-- No quote, comma or line break.
abbrev pub is_plain : Text → Bool
is_plain [] = true
is_plain (c ∷ s) = not (c == b'"' || c == b',' || c == b'\n') && is_plain s

abbrev pub has_no_quote : Text → Bool
has_no_quote [] = true
has_no_quote (c ∷ s) = not (c == b'"') && has_no_quote s

read-field :
    (t u s : Text)
    → is_plain t ≡ true
    → read plain ((t ++ b',' ∷ u) ++ s) ≡ (let (f, fs, rs) = read plain (u ++ s) in (t, f ∷ fs, rs))
unfolding read
read-field [] u s p = refl
read-field (c ∷ t) u s p = ground (arith, p, read-field t u s)

read-quoted :
    (t s : Text)
    → has_no_quote t ≡ true
    → read quoted ((t ++ b'"' ∷ b'\n' ∷ []) ++ s)
      ≡ (let (f, fs, rs) = read plain s in (t, [], (f ∷ fs) ∷ rs))
unfolding read
read-quoted [] s p = refl
read-quoted (c ∷ t) s p = ground (arith, p, read-quoted t s)

is_plain_digits : (t : Text) → AllDigits t → is_plain t ≡ true
is_plain_digits [] d = refl
is_plain_digits (c ∷ t) d = ground (arith, d.0, is_plain_digits t d.1)

is_plain-to_text : (n : ℕ) → is_plain (to_text n) ≡ true
unfolding to_text
is_plain-to_text n = is_plain_digits _ (print_digits-AllDigits 19 n [] tt)

is_plain-kind_text : (k : HistoryKind) → is_plain (kind_text k) ≡ true
is_plain-kind_text HistoryKind.transfer = refl
is_plain-kind_text HistoryKind.funding = refl
is_plain-kind_text HistoryKind.request = refl
is_plain-kind_text HistoryKind.link = refl

is_plain-direction_text : (d : HistoryDirection) → is_plain (direction_text d) ≡ true
is_plain-direction_text sent = refl
is_plain-direction_text received = refl

abbrev all_plain : List Text → Bool
all_plain [] = true
all_plain (t ∷ ts) = is_plain t && all_plain ts

csv_records-format_line :
    (ts : List Text) (d s : Text)
    → all_plain ts ≡ true
    → has_no_quote d ≡ true
    → csv_records (format_line ts d ++ s) ≡ (ts ++ d ∷ []) ∷ csv_records s
unfolding csv_records
csv_records-format_line [] d s p n = ground (arith, read-quoted d s n)
csv_records-format_line (t ∷ ts) d s p n = ground (
  arith,
  p,
  read-field t (format_line ts d) s,
  csv_records-format_line ts d s (ground (arith, p)) n,
)

-- The columns of the header.
abbrev pub header_fields : List Text
header_fields =
    codes "reference"
    ∷ codes "created_at"
    ∷ codes "kind"
    ∷ codes "direction"
    ∷ codes "amount"
    ∷ codes "running_balance"
    ∷ codes "counterparty"
    ∷ []

csv_records_empty : csv_records [] ≡ ([] ∷ []) ∷ []
unfolding csv_records
csv_records_empty = refl

module _ (S : Services) (db : Db) where
  -- The columns of a row.
  abbrev pub fields : TxHistoryRow → List Text
  fields r =
      r.reference
      ∷ S.rfc3339 r.created_at
      ∷ kind_text r.kind
      ∷ direction_text r.direction
      ∷ to_text r.amount_paisa
      ∷ to_text r.balance_after
      ∷ counterparty_display (counterparty r.counterparty_id db)
      ∷ []

  -- The texts that the program does not choose keep out of the way of the format.
  abbrev pub is_readable : TxHistoryRow → Bool
  is_readable r =
      is_plain r.reference
      && is_plain (S.rfc3339 r.created_at)
      && has_no_quote (counterparty_display (counterparty r.counterparty_id db))

  abbrev pub all_readable : List TxHistoryRow → Bool
  all_readable [] = true
  all_readable (r ∷ rows) = is_readable r && all_readable rows

  csv_records-csv_line :
      (r : TxHistoryRow) (s : Text)
      → is_readable r ≡ true
      → csv_records (csv_line S db r ++ s) ≡ fields r ∷ csv_records s
  csv_records-csv_line r s p =
      csv_records-format_line
        (r.reference
          ∷ S.rfc3339 r.created_at
          ∷ kind_text r.kind
          ∷ direction_text r.direction
          ∷ to_text r.amount_paisa
          ∷ to_text r.balance_after
          ∷ [])
        (counterparty_display (counterparty r.counterparty_id db)) s
        (ground (
          arith,
          p,
          is_plain-kind_text r.kind,
          is_plain-direction_text r.direction,
          is_plain-to_text r.amount_paisa,
          is_plain-to_text r.balance_after,
        ))
        (ground (arith, p))

  csv_records-csv_lines :
      (rows : List TxHistoryRow)
      → all_readable rows ≡ true
      → csv_records (csv_lines S db rows) ≡ map fields rows ++ ([] ∷ []) ∷ []
  csv_records-csv_lines [] p = csv_records_empty
  csv_records-csv_lines (r ∷ rows) p =
      ground (arith, p, csv_records-csv_line r (csv_lines S db rows), csv_records-csv_lines rows)

csv_records-csv_header : (s : Text) → csv_records (csv_header ++ s) ≡ header_fields ∷ csv_records s
unfolding csv_records
csv_records-csv_header s = refl

module _ (S : Services) (u : Uuid) (q : StatementQuery) (s : AppState S.Cache) where
  -- A reader of CSV, with quoted fields, gets from a statement that was answered the header, the
  -- seven columns of each row and an empty record at the end, when no reference and no printed time
  -- has a quote, a comma or a line break and no counterparty's name and number have a quote.
  pub generate_statement_csv-readable :
      (csv : Text)
      → (generate_statement_csv S u q s).0 ≡ ok csv
      → all_readable S s.db (order_asc (rows S u q s)) ≡ true
      → csv_records csv
        ≡ header_fields ∷ map (fields S s.db) (order_asc (rows S u q s)) ++ ([] ∷ []) ∷ []
  generate_statement_csv-readable csv h p =
      elim (Bool-cases (ltb max_statement_rows (length (rows S u q s)))) [
        | inl many ↦ absurd (ground (arith, h, many, generate_statement_csv-whole S u q s))
        | inr few ↦ ground (
          arith,
          h,
          few,
          generate_statement_csv-whole S u q s,
          csv_records-csv_header (csv_lines S s.db (order_asc (rows S u q s))),
          csv_records-csv_lines S s.db (order_asc (rows S u q s)) p,
        )
      ]
