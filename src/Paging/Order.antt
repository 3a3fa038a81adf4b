-- ===== src/Paging/Order.antt =====
-- Rows with distinct keys, in descending order.
use pstu_backend.Prelude.{
  ℕ, suc, ◌<◌, ◌≡◌, ◌≢◌, refl, arith, Bool, ◌&&◌, List, [], ◌∷◌, ltb, if◌then◌else◌, Bool-cases,
  inl, inr, length, where_rows,
}
use pstu_backend.Paging.{insert_desc, order_desc}

module _ {A : Type 0} (key : A → ℕ) where
  -- Every key is below a number.
  abbrev pub Below : ℕ → List A → Type 0
  Below n [] = Unit {0}
  Below n (x ∷ xs) = (key x < n) × Below n xs

  abbrev pub Descending : List A → Type 0
  Descending [] = Unit {0}
  Descending (x ∷ xs) = Below (key x) xs × Descending xs

  -- No row has a key.
  abbrev pub Absent : ℕ → List A → Type 0
  Absent k [] = Unit {0}
  Absent k (x ∷ xs) = (key x ≢ k) × Absent k xs

  -- No two rows have the same key.
  abbrev pub Distinct : List A → Type 0
  Distinct [] = Unit {0}
  Distinct (x ∷ xs) = Absent (key x) xs × Distinct xs

  Below-trans : (m n : ℕ) (xs : List A) → m < n → Below m xs → Below n xs
  Below-trans m n [] h b = tt
  Below-trans m n (x ∷ xs) h b = (omega (arith, h, b.0), Below-trans m n xs h b.1)

  insert_desc-Below :
      (n : ℕ) (x : A) (ys : List A) → key x < n → Below n ys → Below n (insert_desc key x ys)
  insert_desc-Below n x [] h b = (h, tt)
  insert_desc-Below n x (y ∷ ys) h b = elim (Bool-cases (ltb (key x) (key y))) [
    | inl later ↦ rw later (b.0, insert_desc-Below n x ys h b.1)
    | inr first ↦ rw first (h, b)
  ]

  insert_desc-Absent :
      (k : ℕ) (x : A) (ys : List A) → key x ≢ k → Absent k ys → Absent k (insert_desc key x ys)
  insert_desc-Absent k x [] h b = (h, tt)
  insert_desc-Absent k x (y ∷ ys) h b = elim (Bool-cases (ltb (key x) (key y))) [
    | inl later ↦ rw later (b.0, insert_desc-Absent k x ys h b.1)
    | inr first ↦ rw first (h, b)
  ]

  order_desc-Absent : (k : ℕ) (xs : List A) → Absent k xs → Absent k (order_desc key xs)
  order_desc-Absent k [] a = tt
  order_desc-Absent k (x ∷ xs) a = insert_desc-Absent k x _ a.0 (order_desc-Absent k xs a.1)

  insert_desc-Descending :
      (x : A) (ys : List A) → Absent (key x) ys → Descending ys → Descending (insert_desc key x ys)
  insert_desc-Descending x [] a d = (tt, tt)
  insert_desc-Descending x (y ∷ ys) a d = elim (Bool-cases (ltb (key x) (key y))) [
    | inl later ↦ rw later (
      insert_desc-Below (key y) x ys (ground (arith, later)) d.0,
      insert_desc-Descending x ys a.1 d.1,
    )
    | inr first ↦
        let less : key y < key x = ground (arith, first, a.0) in
        rw first ((less, Below-trans (key y) (key x) ys less d.0), d)
  ]

  pub order_desc-Descending : (xs : List A) → Distinct xs → Descending (order_desc key xs)
  order_desc-Descending [] d = tt
  order_desc-Descending (x ∷ xs) d =
      insert_desc-Descending x _ (order_desc-Absent (key x) xs d.0) (order_desc-Descending xs d.1)

  pub order_desc-Below : (n : ℕ) (xs : List A) → Below n xs → Below n (order_desc key xs)
  order_desc-Below n [] b = tt
  order_desc-Below n (x ∷ xs) b = insert_desc-Below n x _ b.0 (order_desc-Below n xs b.1)

  length-insert_desc : (x : A) (ys : List A) → length (insert_desc key x ys) ≡ suc (length ys)
  length-insert_desc x [] = refl
  length-insert_desc x (y ∷ ys) = ground (arith, length-insert_desc x ys)

  pub length-order_desc : (xs : List A) → length (order_desc key xs) ≡ length xs
  length-order_desc [] = refl
  length-order_desc (x ∷ xs) =
      omega (arith, length-insert_desc x (order_desc key xs), length-order_desc xs)

  module _ (p : A → Bool) where
    pub where_rows-Below : (n : ℕ) (xs : List A) → Below n xs → Below n (where_rows p xs)
    where_rows-Below n [] b = tt
    where_rows-Below n (x ∷ xs) b = elim (Bool-cases (p x)) [
      | inl passed ↦ rw passed (b.0, where_rows-Below n xs b.1)
      | inr dropped ↦ rw dropped (where_rows-Below n xs b.1)
    ]

    where_rows-Absent : (k : ℕ) (xs : List A) → Absent k xs → Absent k (where_rows p xs)
    where_rows-Absent k [] b = tt
    where_rows-Absent k (x ∷ xs) b = elim (Bool-cases (p x)) [
      | inl passed ↦ rw passed (b.0, where_rows-Absent k xs b.1)
      | inr dropped ↦ rw dropped (where_rows-Absent k xs b.1)
    ]

    pub where_rows-Distinct : (xs : List A) → Distinct xs → Distinct (where_rows p xs)
    where_rows-Distinct [] d = tt
    where_rows-Distinct (x ∷ xs) d = elim (Bool-cases (p x)) [
      | inl passed ↦ rw passed (where_rows-Absent (key x) xs d.0, where_rows-Distinct xs d.1)
      | inr dropped ↦ rw dropped (where_rows-Distinct xs d.1)
    ]

    insert_desc_front : (x : A) (ys : List A) → Below (key x) ys → insert_desc key x ys ≡ x ∷ ys
    insert_desc_front x [] b = refl
    insert_desc_front x (y ∷ ys) b = ground (arith, b.0)

    where_rows-insert_desc :
        (x : A) (ys : List A)
        → Absent (key x) ys
        → Descending ys
        → where_rows p (insert_desc key x ys)
          ≡ (if p x then insert_desc key x (where_rows p ys) else where_rows p ys)
    where_rows-insert_desc x [] a d = ground arith
    where_rows-insert_desc x (y ∷ ys) a d = elim (Bool-cases (ltb (key x) (key y))) [
      | inl later ↦ ground (arith, later, where_rows-insert_desc x ys a.1 d.1)
      | inr first ↦
          let less : key y < key x = ground (arith, first, a.0) in
          ground (
            arith,
            first,
            insert_desc_front x (where_rows p (y ∷ ys))
                (where_rows-Below (key x) (y ∷ ys) (less, Below-trans (key y) (key x) ys less d.0)),
          )
    ]

    -- A filter and the order come to the same in either order.
    pub order_desc-where_rows :
        (xs : List A)
        → Distinct xs
        → order_desc key (where_rows p xs) ≡ where_rows p (order_desc key xs)
    order_desc-where_rows [] d = refl
    order_desc-where_rows (x ∷ xs) d = ground (
      arith,
      order_desc-where_rows xs d.1,
      where_rows-insert_desc x (order_desc key xs) (order_desc-Absent (key x) xs d.0)
          (order_desc-Descending xs d.1),
    )

pub where_rows-and :
    {A : Type 0} (p q : A → Bool) (xs : List A)
    → where_rows (λ x. p x && q x) xs ≡ where_rows p (where_rows q xs)
where_rows-and p q [] = refl
where_rows-and p q (x ∷ xs) = ground (arith, where_rows-and p q xs)
