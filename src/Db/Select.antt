-- ===== src/Db/Select.antt =====
-- What the SQL of the client uses of a query: the first row of `WHERE`, `ORDER BY`, `UPDATE`.
use ice_core.Base.{
  ◌≡◌, refl, Bool, ◌&&◌, not, List, [], ◌∷◌, map, arith, ◌==◌, if◌then◌else◌, filter, text_eq, Text,
  ◌⊎◌, inl, inr,
}
use ice_core.Base.Int.{ℤ, leb_ℤ, ◌<ℤ◌}
use ice_core.Db.Exec.{Outcome, done, raised, no_rows}
use ice_core.Db.Rows.{StoredTable, TableRow}

module _ {A : Type 0} where
  -- `QueryRow(…).Scan(…)`: the first row, or ErrNoRows.
  unfoldable pub first_row : List A → Outcome A
  first_row [] = raised no_rows
  first_row (x ∷ xs) = done x

  -- `UPDATE … SET f WHERE p`
  unfoldable pub update_where : (A → Bool) → (A → A) → List A → List A
  update_where p f [] = []
  update_where p f (x ∷ xs) = (if p x then f x else x) ∷ update_where p f xs

  unfoldable pub insert_asc : (A → ℤ) → A → List A → List A
  insert_asc key x [] = x ∷ []
  insert_asc key x (y ∷ ys) = if leb_ℤ (key x) (key y) then x ∷ y ∷ ys else y ∷ insert_asc key x ys

  -- `ORDER BY key`
  unfoldable pub order_by : (A → ℤ) → List A → List A
  unfolding insert_asc
  order_by key [] = []
  order_by key (x ∷ xs) = insert_asc key x (order_by key xs)

  unfoldable pub insert_desc : (A → ℤ) → A → List A → List A
  insert_desc key x [] = x ∷ []
  insert_desc key x (y ∷ ys) =
      if leb_ℤ (key y) (key x) then x ∷ y ∷ ys else y ∷ insert_desc key x ys

  -- `ORDER BY key DESC`
  unfoldable pub order_by_desc : (A → ℤ) → List A → List A
  unfolding insert_desc
  order_by_desc key [] = []
  order_by_desc key (x ∷ xs) = insert_desc key x (order_by_desc key xs)

  -- Rows stored in the order of a key come out as they are.
  abbrev pub IsAscending : (A → ℤ) → List A → Type 0
  IsAscending key [] = Unit
  IsAscending key (x ∷ []) = Unit
  IsAscending key (x ∷ y ∷ l) = (key x <ℤ key y) × IsAscending key (y ∷ l)

  pub order_by_sorted : (key : A → ℤ) (l : List A) → IsAscending key l → order_by key l ≡ l
  unfolding order_by
  order_by_sorted key [] h = refl
  order_by_sorted key (x ∷ []) h = refl
  order_by_sorted key (x ∷ y ∷ l) h = ground (arith, order_by_sorted key (y ∷ l) h.1)

-- `WHERE table_name = $1 AND is_deleted = false`
abbrev pub is_live : Text → StoredTable → Bool
is_live name t = t.table_name == name && not t.is_deleted

unfoldable pub live_row : Text → List StoredTable → Outcome TableRow
unfolding first_row
live_row name ts = first_row (map (λ t. t.row) (filter (is_live name) ts))

pub live_row-cases :
    (name : Text) (ts : List StoredTable)
    → ((r : TableRow) × (live_row name ts ≡ done r)) ⊎ (live_row name ts ≡ raised no_rows)
unfolding live_row
live_row-cases name ts = first (map (λ t. t.row) (filter (is_live name) ts))
  where
    first :
        (l : List TableRow)
        → ((r : TableRow) × (first_row l ≡ done r)) ⊎ (first_row l ≡ raised no_rows)
    first [] = inr refl
    first (x ∷ l) = inl (x, refl)
