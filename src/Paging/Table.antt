-- ===== src/Paging/Table.antt =====
-- The pages of a query of a table, one after another.
use pstu_backend.Prelude.{
  ℕ, suc, ◌+◌, ◌-◌, ◌≡◌, ◌∙◌, ap, arith, Bool, ◌&&◌, Option, none, some, List, map, length, take,
  where_rows, length-where_rows, i64_limit,
}
use pstu_backend.Paging.{page_limit, is_before, order_desc, take_page}
use pstu_backend.Paging.Order.{
  Below, Distinct, order_desc-Descending, order_desc-Below, length-order_desc, where_rows-Below,
  where_rows-Distinct, order_desc-where_rows, where_rows-and,
}
use pstu_backend.Paging.Walk.{walk, walk_all}

page_limit-suc : (l : Option ℕ) → page_limit l ≡ suc (page_limit l - 1)
page_limit-suc l = ground arith

module _ {A B : Type 0} (key : A → ℕ) (f : A → B) (p : A → Bool) (l : Option ℕ) (table : List A)
    (ask : Option ℕ → List B × Option ℕ) where
  -- The page of some rows, under a limit.
  abbrev page_at : ℕ → List A → List B × Option ℕ
  page_at limit rows =
      let (items, next_cursor) = take_page key limit rows in (map f items, next_cursor)

  -- The rows that the query fetches at a cursor.
  abbrev fetch : Option ℕ → List A
  fetch c =
      take (page_limit l + 1) (order_desc key (where_rows (λ x. is_before c (key x) && p x) table))

  -- What is asked at a cursor is the page of those rows.
  abbrev pub Asks : Type 0
  Asks = (c : Option ℕ) → ask c ≡ page_at (page_limit l) (fetch c)

  fetched :
      (c : Option ℕ)
      → Distinct key table
      → fetch c
        ≡ take
            (page_limit l + 1)
            (where_rows (λ x. is_before c (key x)) (order_desc key (where_rows p table)))
  fetched c d =
      ap (λ xs. take (page_limit l + 1) (order_desc key xs))
        (where_rows-and (λ x. is_before c (key x)) p table)
      ∙ ap (take (page_limit l + 1)) (
          order_desc-where_rows key (λ x. is_before c (key x)) (where_rows p table)
            (where_rows-Distinct key p table d))

  pub walk_table :
      Asks
      → Distinct key table
      → Below key i64_limit table
      → walk ask (suc (length table)) none ≡ some (map f (order_desc key (where_rows p table)))
  walk_table asks d b =
      walk_all key f (page_limit l - 1) (order_desc key (where_rows p table)) ask
        (λ c.
          asks c
          ∙ ap (page_at (page_limit l)) (fetched c d)
          ∙ ap
              (λ n. page_at n (
                take (n + 1)
                  (where_rows (λ x. is_before c (key x)) (order_desc key (where_rows p table)))))
              (page_limit-suc l))
        (order_desc-Descending key (where_rows p table) (where_rows-Distinct key p table d))
        (order_desc-Below key i64_limit (where_rows p table)
          (where_rows-Below key p i64_limit table b))
        (suc (length table))
        (omega (arith, length-order_desc key (where_rows p table), length-where_rows p table))
