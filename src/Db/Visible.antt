-- ===== src/Db/Visible.antt =====
-- What a read at a snapshot sees, and that later rows and later deletions leave it as it is.
use ice_core.Base.{
  ◌≡◌, refl, ap, ◌∙◌, Bool, true, List, [], ◌∷◌, ◌++◌, map, text_eq, if◌then◌else◌, Text, filter,
  arith, filter-append,
}
use mathlib.Core.List.{append-nil}
use ice_core.Base.Int.{ℤ, ◌<ℤ◌, int_eq}
use ice_core.Db.Rows.{StoredPartition, Tables}
use ice_core.Db.Exec.{Pg}
use ice_core.Db.Select.{update_where, order_by, insert_asc}
use ice_core.Db.Partitions.{is_visible, scan_partition, select_partitions, is_target, mark_deleted}

module _ {A : Type 0} where
  filter-update_where :
      (keep p : A → Bool) (f : A → A)
      → ((x : A) → p x ≡ true → keep (f x) ≡ keep x)
      → (l : List A) → filter keep (update_where p f l) ≡ update_where p f (filter keep l)
  unfolding update_where
  filter-update_where keep p f h [] = refl
  filter-update_where keep p f h (x ∷ l) = ground (arith, h x, filter-update_where keep p f h l)

  map-update_where :
      {B : Type 0} (g : A → B) (p : A → Bool) (f : A → A)
      → ((x : A) → p x ≡ true → g (f x) ≡ g x)
      → (l : List A) → map g (update_where p f l) ≡ map g l
  unfolding update_where
  map-update_where g p f h [] = refl
  map-update_where g p f h (x ∷ l) = ground (arith, h x, map-update_where g p f h l)

  insert_asc-update_where :
      (key : A → ℤ) (p : A → Bool) (f : A → A)
      → ((x : A) → p x ≡ true → key (f x) ≡ key x)
      → (x : A) (l : List A)
      → insert_asc key (if p x then f x else x) (update_where p f l)
        ≡ update_where p f (insert_asc key x l)
  unfolding update_where insert_asc
  insert_asc-update_where key p f h x [] = refl
  insert_asc-update_where key p f h x (y ∷ l) =
      ground (arith, h x, h y, insert_asc-update_where key p f h x l)

  order_by-update_where :
      (key : A → ℤ) (p : A → Bool) (f : A → A)
      → ((x : A) → p x ≡ true → key (f x) ≡ key x)
      → (l : List A) → order_by key (update_where p f l) ≡ update_where p f (order_by key l)
  unfolding update_where order_by
  order_by-update_where key p f h [] = refl
  order_by-update_where key p f h (x ∷ l) =
      ap (insert_asc key (if p x then f x else x)) (order_by-update_where key p f h l)
      ∙ insert_asc-update_where key p f h x (order_by key l)

module _ (pg : Pg) (table_id snapshot : ℤ) where
  -- A deletion by a later snapshot changes nothing of what the snapshot shows.
  pub select-mark_deleted :
      (target : ℤ) (key : Text) (later : ℤ) (t : Tables)
      → snapshot <ℤ later
      → select_partitions pg table_id snapshot (record t {
        partitions = update_where (is_target pg target key) (mark_deleted pg later) t.partitions;
      })
        ≡ select_partitions pg table_id snapshot t
  unfolding select_partitions
  select-mark_deleted target key later t h =
      ap (λ l. map (scan_partition pg) (order_by (λ p. p.partition_id) l))
        (filter-update_where (is_visible table_id snapshot) (is_target pg target key)
          (mark_deleted pg later) same_sight t.partitions)
      ∙ ap (map (scan_partition pg)) (
          order_by-update_where (λ p. p.partition_id) (is_target pg target key)
            (mark_deleted pg later) (λ x _. refl)
            (filter (is_visible table_id snapshot) t.partitions))
      ∙ map-update_where (scan_partition pg) (is_target pg target key) (mark_deleted pg later)
          (λ x _. unfold scan_partition in refl)
          (order_by (λ p. p.partition_id) (filter (is_visible table_id snapshot) t.partitions))
    where
      same_sight :
          (x : StoredPartition)
          → is_target pg target key x ≡ true
          → is_visible table_id snapshot (mark_deleted pg later x) ≡ is_visible table_id snapshot x
      same_sight x m = unfold is_visible in ground arith

  -- A row of a later snapshot is not shown.
  pub select-append :
      (row : StoredPartition) (t : Tables)
      → snapshot <ℤ row.snapshot_id
      → select_partitions pg table_id snapshot (record t { partitions = t.partitions ++ row ∷ [] })
        ≡ select_partitions pg table_id snapshot t
  unfolding select_partitions
  select-append row t h =
      ap (λ l. map (scan_partition pg) (order_by (λ p. p.partition_id) l))
        (filter-append (is_visible table_id snapshot) t.partitions (row ∷ [])
          ∙ ap (λ l. filter (is_visible table_id snapshot) t.partitions ++ l) hidden
          ∙ append-nil (filter (is_visible table_id snapshot) t.partitions))
    where
      hidden : filter (is_visible table_id snapshot) (row ∷ []) ≡ []
      hidden = unfold is_visible in ground arith
