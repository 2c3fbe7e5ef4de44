-- ===== src/Store/Order.antt =====
-- `ORDER BY`: a stable insertion sort by a strict order.
use ouro_pass.Base.{if◌then◌else◌, Bool-cases, In, inl, inr, Bool, List, [], ◌∷◌}

module _ {A : Type 0} (before : A → A → Bool) where
  unfoldable pub insert_sorted : A → List A → List A
  insert_sorted a [] = a ∷ []
  insert_sorted a (x ∷ rows) =
      let rest = insert_sorted a rows in if before x a then x ∷ rest else a ∷ x ∷ rows

  unfoldable pub order_by : List A → List A
  unfolding insert_sorted
  order_by [] = []
  order_by (a ∷ rows) = insert_sorted a (order_by rows)

  pub In-insert_sorted : (b a : A) (rows : List A) → In b (a ∷ rows) → In b (insert_sorted a rows)
  unfolding insert_sorted
  In-insert_sorted b a [] h = h
  In-insert_sorted b a (x ∷ rows) h = elim (Bool-cases (before x a)) [
    | inl first ↦ rw first (elim h [
      | inl here ↦ inr (In-insert_sorted b a rows (inl here))
      | inr (inl here) ↦ inl here
      | inr (inr there) ↦ inr (In-insert_sorted b a rows (inr there))
    ])
    | inr later ↦ rw later h
  ]

  -- Ordering loses no row.
  pub In-order_by : (b : A) (rows : List A) → In b rows → In b (order_by rows)
  unfolding order_by
  In-order_by b [] h = h
  In-order_by b (a ∷ rows) (inl here) = In-insert_sorted b a (order_by rows) (inl here)
  In-order_by b (a ∷ rows) (inr there) =
      In-insert_sorted b a (order_by rows) (inr (In-order_by b rows there))
