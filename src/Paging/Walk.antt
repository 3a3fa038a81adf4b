-- ===== src/Paging/Walk.antt =====
-- A client that follows the cursors gets every row once, in order.
use mathlib.Core.Option
use mathlib.Core.Path.{subst}
use mathlib.Core.List.{map-append, append_assoc}
use pstu_backend.Prelude.{
  ℕ, zero, suc, ◌+◌, ◌≤◌, ◌<◌, ◌≡◌, refl, sym, ◌∙◌, ap, arith, true, Option, none, some, List, [],
  ◌∷◌, ◌++◌, map, ltb, Bool-cases, inl, inr, length, length-append, length-take, take_whole, take,
  where_rows, i64_limit,
}
use pstu_backend.Paging.{is_before, last_key, take_page}
use pstu_backend.Paging.Order.{Below, Descending}

where_rows_all : {A : Type 0} (xs : List A) → where_rows (λ x. true) xs ≡ xs
where_rows_all [] = refl
where_rows_all (x ∷ xs) = ap (λ ys. x ∷ ys) (where_rows_all xs)

module _ {A : Type 0} (key : A → ℕ) where
  Below-append :
      (n : ℕ) (done : List A) (x : A) (xs : List A) → Below key n (done ++ x ∷ xs) → key x < n
  Below-append n [] x xs b = b.0
  Below-append n (y ∷ done) x xs b = Below-append n done x xs b.1

  all_before :
      (k : ℕ) (xs : List A)
      → k < i64_limit
      → Below key k xs
      → where_rows (λ y. is_before (some k) (key y)) xs ≡ xs
  all_before k [] h b = refl
  all_before k (x ∷ xs) h b = ground (arith, h, b.0, all_before k xs h b.1)

  -- The rows before a cursor are those after its row.
  where_rows-is_before :
      (done : List A) (x : A) (xs : List A)
      → Descending key (done ++ x ∷ xs)
      → key x < i64_limit
      → where_rows (λ y. is_before (some (key x)) (key y)) (done ++ x ∷ xs) ≡ xs
  where_rows-is_before [] x xs d h = ground (arith, h, all_before (key x) xs h d.0)
  where_rows-is_before (y ∷ done) x xs d h =
      ground (arith, Below-append (key y) done x xs d.0, where_rows-is_before done x xs d.1 h)

  last_key-append : (xs : List A) (x : A) → last_key key (xs ++ x ∷ []) ≡ some (key x)
  last_key-append [] x = refl
  last_key-append (y ∷ []) x = refl
  last_key-append (y ∷ z ∷ xs) x = last_key-append (z ∷ xs) x

  take-take : (n : ℕ) (xs : List A) → take n (take (suc n) xs) ≡ take n xs
  take-take zero xs = refl
  take-take (suc n) [] = refl
  take-take (suc n) (x ∷ xs) = ap (λ ys. x ∷ ys) (take-take n xs)

  -- A full page, its last row and what comes after.
  record Split (n : ℕ) (rows : List A) : Type 0 where
    before : List A
    last : A
    after : List A
    whole : rows ≡ before ++ last ∷ after
    page : take (suc n) rows ≡ before ++ last ∷ []

  split : (n : ℕ) (rows : List A) → n < length rows → Split n rows
  split zero [] h = absurd (omega (arith, h))
  split zero (x ∷ rows) h = record {
    before = [];
    last = x;
    after = rows;
    whole = refl;
    page = refl;
  }
  split (suc n) [] h = absurd (omega (arith, h))
  split (suc n) (x ∷ rows) h =
      let r = split n rows (omega (arith, h)) in
      record {
        before = x ∷ r.before;
        last = r.last;
        after = r.after;
        whole = ap (λ ys. x ∷ ys) r.whole;
        page = ap (λ ys. x ∷ ys) r.page;
      }

  take_page_last :
      (n : ℕ) (rows : List A)
      → length rows ≤ suc n
      → take_page key (suc n) (take (suc n + 1) rows) ≡ (rows, none)
  take_page_last n rows h = ground (
    arith,
    h,
    take_whole (suc n + 1) rows (omega (arith, h)),
    take_whole (length rows) rows (omega arith),
  )

  take_page_full :
      (n : ℕ) (rows : List A) (r : Split n rows)
      → suc n < length rows
      → take_page key (suc n) (take (suc n + 1) rows) ≡ (r.before ++ r.last ∷ [], some (key r.last))
  take_page_full n rows r h = ground (
    arith,
    h,
    length-take (suc n + 1) rows,
    take-take (suc n) rows,
    r.page,
    last_key-append r.before r.last,
  )

module _ {B : Type 0} (fetch : Option ℕ → List B × Option ℕ) where
  -- A client that asks for page after page, at most so many, until there is no next cursor.
  abbrev pub walk : ℕ → Option ℕ → Option (List B)
  walk zero c = none
  walk (suc fuel) c = elim (fetch c).1 [
    | none ↦ some (fetch c).0
    | some k ↦ Option.map (λ rest. (fetch c).0 ++ rest) (walk fuel (some k))
  ]

module _ {A B : Type 0} (key : A → ℕ) (f : A → B) (n : ℕ) (rows : List A)
    (fetch : Option ℕ → List B × Option ℕ) where
  -- The rows before a cursor.
  abbrev rows_before : Option ℕ → List A
  rows_before c = where_rows (λ x. is_before c (key x)) rows

  -- The page of a cursor: of at most `n + 1` rows before it.
  abbrev page_before : Option ℕ → List A × Option ℕ
  page_before c = take_page key (suc n) (take (suc n + 1) (rows_before c))

  -- The pages are those of the rows.
  abbrev pub Pages : Type 0
  Pages = (c : Option ℕ) → fetch c ≡ (map f (page_before c).0, (page_before c).1)

  shorter :
      {fuel : ℕ} {rest : List A} (r : Split key n rest)
      → length rest < suc fuel
      → length r.after < fuel
  shorter r h =
      omega (arith, h, ap (length {A = A}) r.whole, length-append r.before (r.last ∷ r.after))

  module _ (pages : Pages) (d : Descending key rows) (b : Below key i64_limit rows) where
    walk_rest :
        (fuel : ℕ) (c : Option ℕ) (done rest : List A)
        → rows ≡ done ++ rest
        → rows_before c ≡ rest
        → length rest < fuel
        → walk fetch fuel c ≡ some (map f rest)
    walk_rest zero c done rest w e h = absurd (omega (arith, h))
    walk_rest (suc fuel) c done rest w e h = elim (Bool-cases (ltb (suc n) (length rest))) [
      | inl more ↦
          let r = split key n rest (ground (arith, more)) in
          let seen = done ++ r.before in
          let w' =
            w
            ∙ ap (λ ys. done ++ ys) r.whole
            ∙ sym (append_assoc done r.before (r.last ∷ r.after)) in
          let next =
            ap (where_rows (λ x. is_before (some (key r.last)) (key x))) w'
            ∙ where_rows-is_before key seen r.last r.after (subst (Descending key) w' d) (
                Below-append key i64_limit seen r.last r.after
                  (subst (Below key i64_limit) w' b)) in
          let others =
            walk_rest fuel (some (key r.last)) (seen ++ r.last ∷ []) r.after
              (w' ∙ sym (append_assoc seen (r.last ∷ []) r.after)) next (shorter r h) in
          ground (
            arith,
            pages c,
            e,
            take_page_full key n rest r (ground (arith, more)),
            others,
            ap (map f) r.whole,
            map-append f (r.before ++ r.last ∷ []) r.after,
            append_assoc r.before (r.last ∷ []) r.after,
          )
      | inr no_more ↦
          ground (arith, pages c, e, take_page_last key n rest (ground (arith, no_more)))
    ]

    pub walk_all : (fuel : ℕ) → length rows < fuel → walk fetch fuel none ≡ some (map f rows)
    walk_all fuel h = walk_rest fuel none [] rows refl (where_rows_all rows) h
