-- ===== src/Db/Live.antt =====
-- The live rows of `tables`: what a change of one table does to its own row and to the others, and
-- that no two rows have one id.
use ice_core.Base.{
  ℕ, suc, ◌≡◌, ◌≢◌, refl, sym, ◌∙◌, Bool, true, false, List, [], ◌∷◌, ◌++◌, text_eq, text_beq_iff,
  if◌then◌else◌, Text, filter, All, arith, Bool-cases, inl, inr, ◌≤◌,
}
use mathlib.Core.Path.{subst}
use ice_core.Base.Int.{ℤ, pos, int_eq, ◌<ℤ◌}
use ice_core.Db.Rows.{TableRow, StoredTable, Tables, Sequences}
use ice_core.Db.Exec.{Pg, done, raised, no_rows, reading}
use ice_core.Db.Select.{update_where, is_live, live_row, first_row}
use ice_core.Db.Tables.{select_table_id}

live_row-cons :
    (n : Text) (t : StoredTable) (ts : List StoredTable)
    → live_row n (t ∷ ts) ≡ (if is_live n t then done t.row else live_row n ts)
unfolding live_row first_row
live_row-cons n t ts = ground arith

live_row-nil : (n : Text) → live_row n [] ≡ raised no_rows
unfolding live_row first_row
live_row-nil n = refl

-- A row that is found stays found when rows are added behind.
pub live_row-append :
    (n : Text) (ts us : List StoredTable) (r : TableRow)
    → live_row n ts ≡ done r
    → live_row n (ts ++ us) ≡ done r
live_row-append n [] us r h = ground (arith, live_row-nil n, h)
live_row-append n (t ∷ ts) us r h =
    ground (arith, h, live_row-cons n t ts, live_row-cons n t (ts ++ us), live_row-append n ts us r)

-- Rows that are not live under a name, before and after a change, do not matter to it.
pub live_row-update_where :
    (n : Text) (p : StoredTable → Bool) (f : StoredTable → StoredTable) (ts : List StoredTable)
    → ((t : StoredTable) → p t ≡ true → (is_live n t ≡ false) × (is_live n (f t) ≡ false))
    → live_row n (update_where p f ts) ≡ live_row n ts
unfolding update_where
live_row-update_where n p f [] h = refl
live_row-update_where n p f (t ∷ ts) h = ground (
  arith,
  h t,
  live_row-cons n t ts,
  live_row-cons n t (update_where p f ts),
  live_row-cons n (f t) (update_where p f ts),
  live_row-update_where n p f ts h,
)

pub live_row-filter :
    (n : Text) (p : StoredTable → Bool) (ts : List StoredTable)
    → ((t : StoredTable) → p t ≡ false → is_live n t ≡ false)
    → live_row n (filter p ts) ≡ live_row n ts
live_row-filter n p [] h = refl
live_row-filter n p (t ∷ ts) h =
    ground
      (arith, h t, live_row-cons n t ts, live_row-cons n t (filter p ts), live_row-filter n p ts h)

-- No two rows have one id.
abbrev pub UniqueIds : List StoredTable → Type 0
UniqueIds [] = Unit
UniqueIds (t ∷ ts) = All (λ (u : StoredTable). u.table_id ≢ t.table_id) ts × UniqueIds ts

All-live_row :
    (n : Text) (P : StoredTable → Type 0) (Q : ℤ → Type 0) (ts : List StoredTable) (r : TableRow)
    → ((t : StoredTable) → P t → Q t.table_id)
    → All P ts
    → live_row n ts ≡ done r
    → Q r.table_id
All-live_row n P Q [] r f h e = absurd (ground (arith, e, live_row-nil n))
All-live_row n P Q (t ∷ ts) r f h e = elim (Bool-cases (is_live n t)) [
  | inl live ↦ subst Q (ground (arith, e, live, live_row-cons n t ts)) (f t h.0)
  | inr other ↦ All-live_row n P Q ts r f h.1 (ground (arith, e, other, live_row-cons n t ts))
]

-- Two names with live rows of one id are one name.
pub live_row_unique :
    (n m : Text) (ts : List StoredTable) (r q : TableRow)
    → UniqueIds ts
    → live_row n ts ≡ done r
    → live_row m ts ≡ done q
    → r.table_id ≡ q.table_id
    → n ≡ m
live_row_unique n m [] r q u e k same = absurd (ground (arith, e, live_row-nil n))
live_row_unique n m (t ∷ ts) r q u e k same = elim (Bool-cases (is_live n t)) [
  | inl here ↦ elim (Bool-cases (is_live m t)) [
    | inl there ↦
        ground (arith, here, there, text_beq_iff t.table_name n, text_beq_iff t.table_name m)
    | inr there ↦ absurd (
        All-live_row m (λ u. u.table_id ≢ t.table_id) (λ z. z ≢ t.table_id) ts q (λ _ p. p) u.0
          (ground (arith, k, there, live_row-cons m t ts))
          (sym same ∙ ground (arith, e, here, live_row-cons n t ts)))
  ]
  | inr here ↦ elim (Bool-cases (is_live m t)) [
    | inl there ↦ absurd (
        All-live_row n (λ u. u.table_id ≢ t.table_id) (λ z. z ≢ t.table_id) ts r (λ _ p. p) u.0
          (ground (arith, e, here, live_row-cons n t ts))
          (same ∙ ground (arith, k, there, live_row-cons m t ts)))
    | inr there ↦
        live_row_unique n m ts r q u.1 (ground (arith, e, here, live_row-cons n t ts))
          (ground (arith, k, there, live_row-cons m t ts)) same
  ]
]

-- What keeps the ids apart, and what a bound on them is worth.
abbrev pub IdsBelow : ℕ → List StoredTable → Type 0
IdsBelow bound = All (λ (t : StoredTable). t.table_id <ℤ pos (suc bound))

pub All-update_where :
    (P : StoredTable → Type 0) (p : StoredTable → Bool) (f : StoredTable → StoredTable)
    (ts : List StoredTable)
    → ((t : StoredTable) → P t → P (f t))
    → All P ts
    → All P (update_where p f ts)
unfolding update_where
All-update_where P p f [] h a = tt
All-update_where P p f (t ∷ ts) h a = elim (Bool-cases (p t)) [
  | inl chosen ↦ rw chosen (h t a.0, All-update_where P p f ts h a.1)
  | inr other ↦ rw other (a.0, All-update_where P p f ts h a.1)
]

pub update_where-UniqueIds :
    (p : StoredTable → Bool) (f : StoredTable → StoredTable) (ts : List StoredTable)
    → ((t : StoredTable) → (f t).table_id ≡ t.table_id)
    → UniqueIds ts
    → UniqueIds (update_where p f ts)
unfolding update_where
update_where-UniqueIds p f [] h u = tt
update_where-UniqueIds p f (t ∷ ts) h u = elim (Bool-cases (p t)) [
  | inl chosen ↦ rw chosen (
    subst (λ z. All (λ (u : StoredTable). u.table_id ≢ z) (update_where p f ts)) (sym (h t))
        (All-update_where (λ u. u.table_id ≢ t.table_id) p f ts (λ x d e. d (sym (h x) ∙ e)) u.0),
    update_where-UniqueIds p f ts h u.1,
  )
  | inr other ↦ rw other (
    All-update_where (λ u. u.table_id ≢ t.table_id) p f ts (λ x d e. d (sym (h x) ∙ e)) u.0,
    update_where-UniqueIds p f ts h u.1,
  )
]

pub All-filter :
    (P : StoredTable → Type 0) (p : StoredTable → Bool) (ts : List StoredTable)
    → All P ts
    → All P (filter p ts)
All-filter P p [] a = tt
All-filter P p (t ∷ ts) a = elim (Bool-cases (p t)) [
  | inl chosen ↦ rw chosen (a.0, All-filter P p ts a.1)
  | inr other ↦ rw other (All-filter P p ts a.1)
]

pub filter-UniqueIds :
    (p : StoredTable → Bool) (ts : List StoredTable) → UniqueIds ts → UniqueIds (filter p ts)
filter-UniqueIds p [] u = tt
filter-UniqueIds p (t ∷ ts) u = elim (Bool-cases (p t)) [
  | inl chosen ↦ rw chosen (All-filter _ p ts u.0, filter-UniqueIds p ts u.1)
  | inr other ↦ rw other (filter-UniqueIds p ts u.1)
]

All-append_one :
    (P : StoredTable → Type 0) (ts : List StoredTable) (u : StoredTable)
    → All P ts
    → P u
    → All P (ts ++ u ∷ [])
All-append_one P [] u a p = (p, tt)
All-append_one P (t ∷ ts) u a p = (a.0, All-append_one P ts u a.1 p)

-- A new row takes the next id.
pub append-UniqueIds :
    (bound : ℕ) (ts : List StoredTable) (u : StoredTable)
    → u.table_id ≡ pos (suc bound)
    → IdsBelow bound ts
    → UniqueIds ts
    → UniqueIds (ts ++ u ∷ [])
append-UniqueIds bound [] u e b k = (tt, tt)
append-UniqueIds bound (t ∷ ts) u e b k = (
  All-append_one _ ts u k.0
      (λ same. absurd (omega (arith, subst (λ z. z <ℤ pos (suc bound)) (sym same ∙ e) b.0))),
  append-UniqueIds bound ts u e b.1 k.1,
)

pub IdsBelow-up :
    (bound bound' : ℕ) (ts : List StoredTable)
    → bound ≤ bound'
    → IdsBelow bound ts
    → IdsBelow bound' ts
IdsBelow-up bound bound' [] h b = tt
IdsBelow-up bound bound' (t ∷ ts) h b = (omega (arith, b.0), IdsBelow-up bound bound' ts h b.1)

pub append-IdsBelow :
    (bound : ℕ) (ts : List StoredTable) (u : StoredTable)
    → u.table_id ≡ pos (suc bound)
    → IdsBelow bound ts
    → IdsBelow (suc bound) (ts ++ u ∷ [])
append-IdsBelow bound ts u e b =
    All-append_one _ ts u (IdsBelow-up bound (suc bound) ts (omega arith) b)
      (subst (λ z. z <ℤ pos (suc (suc bound))) (sym e) (omega arith))

-- The id of a table that has a live row.
pub select_live :
    (pg : Pg) (table_name : Text) (row : TableRow) (n : ℕ) (t : Tables) (s : Sequences)
    → live_row table_name t.tables ≡ done row
    → select_table_id pg table_name n t s ≡ (done row.table_id, t, s)
unfolding reading
select_live pg table_name row n t s live = ground (arith, live)

-- The live row of a name after an update of the rows that are live under it.
pub live_row-updated :
    (name : Text) (f : TableRow → TableRow) (r : TableRow) (ts : List StoredTable)
    → ((r : TableRow) → (f r).table_name ≡ r.table_name)
    → live_row name ts ≡ done r
    → live_row name (update_where (is_live name) (λ u. record u { row = f u.row }) ts) ≡ done (f r)
unfolding live_row first_row update_where
live_row-updated name f r [] keeps h = absurd (cc h)
live_row-updated name f r (t ∷ ts) keeps h =
    ground (arith, h, keeps t.row, live_row-updated name f r ts keeps)
