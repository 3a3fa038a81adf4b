-- ===== src/Paging.antt =====
-- The paging that the services of history, notifications, requests and links share: rows in
-- descending order of an identity or a time, a page at a time, with a cursor to the next page.
pub mod Order
pub mod Walk
pub mod Table
use pstu_backend.Prelude.{
  ℕ, ◌+◌, Instant, Bool, true, ◌&&◌, Option, none, some, List, [], ◌∷◌, ltb, ◌==◌, if◌then◌else◌,
  length, take, unwrap_or, is_nonneg,
}

-- `n.clamp(1, 100)` on an `i64`
abbrev pub clamp_limit : ℕ → ℕ
clamp_limit n = if is_nonneg n then (if ltb n 1 then 1 else if ltb 100 n then 100 else n) else 1

-- `limit.unwrap_or(20).clamp(1, 100)`
abbrev pub page_limit : Option ℕ → ℕ
page_limit limit = clamp_limit (unwrap_or 20 limit)

-- `$c::bigint IS NULL OR id < $c`, for an id that is not negative
abbrev pub is_before : Option ℕ → ℕ → Bool
is_before none id = true
is_before (some c) id = is_nonneg c && ltb id c

-- `$c::timestamptz IS NULL OR created_at < $c`
abbrev pub is_earlier : Option Instant → Instant → Bool
is_earlier none t = true
is_earlier (some c) t = ltb t c

-- `$n IS NULL OR …`
abbrev pub passes : {A : Type 0} → (A → Bool) → Option A → Bool
passes p none = true
passes p (some a) = p a

module _ {A : Type 0} (key : A → ℕ) where
  abbrev pub insert_desc : A → List A → List A
  insert_desc x [] = x ∷ []
  insert_desc x (y ∷ ys) =
      let rest = insert_desc x ys in if ltb (key x) (key y) then y ∷ rest else x ∷ y ∷ ys

  -- `ORDER BY id DESC`
  abbrev pub order_desc : List A → List A
  order_desc [] = []
  order_desc (x ∷ xs) = insert_desc x (order_desc xs)

  abbrev pub last_key : List A → Option ℕ
  last_key [] = none
  last_key (x ∷ []) = some (key x)
  last_key (x ∷ y ∷ xs) = last_key (y ∷ xs)

  -- What is answered of the rows that `LIMIT limit + 1` fetches, and the next cursor.
  abbrev pub take_page : ℕ → List A → List A × Option ℕ
  take_page limit rows =
      let has_more = length rows == limit + 1 in
      let items = take (if has_more then limit else length rows) rows in
      (items, if has_more then last_key items else none)
