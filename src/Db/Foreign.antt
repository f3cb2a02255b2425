-- ===== src/Db/Foreign.antt =====
-- What a table shows does not depend on the rows of `partitions` of other tables.
use ice_core.Base.{
  ◌≡◌, ◌≢◌, refl, sym, ◌∙◌, ap, Bool, true, false, List, [], ◌∷◌, ◌++◌, map, ◌==◌, text_eq, Text,
  filter, arith, not,
}
use ice_core.Base.Int.{ℤ, int_eq}
use ice_core.Db.Rows.{StoredPartition, Tables}
use ice_core.Db.Exec.{Pg}
use ice_core.Db.Select.{update_where, order_by}
use ice_core.Db.Partitions.{is_visible, scan_partition, select_partitions, is_target, mark_deleted}

module _ {A : Type 0} (keep : A → Bool) where
  filter-append_other :
      (l : List A) (x : A) → keep x ≡ false → filter keep (l ++ x ∷ []) ≡ filter keep l
  filter-append_other [] x h = ground (arith, h)
  filter-append_other (y ∷ l) x h = ground (arith, filter-append_other l x h)

  filter-update_other :
      (p : A → Bool) (f : A → A)
      → ((x : A) → p x ≡ true → (keep x ≡ false) × (keep (f x) ≡ false))
      → (l : List A) → filter keep (update_where p f l) ≡ filter keep l
  unfolding update_where
  filter-update_other p f h [] = refl
  filter-update_other p f h (x ∷ l) = ground (arith, h x, filter-update_other p f h l)

  filter-filter_other :
      (p : A → Bool)
      → ((x : A) → p x ≡ false → keep x ≡ false)
      → (l : List A) → filter keep (filter p l) ≡ filter keep l
  filter-filter_other p h [] = refl
  filter-filter_other p h (x ∷ l) = ground (arith, h x, filter-filter_other p h l)

is_visible_other :
    (id snapshot : ℤ) (p : StoredPartition) → p.table_id ≢ id → is_visible id snapshot p ≡ false
unfolding is_visible
is_visible_other id snapshot p h = ground (arith, h, int_eq.beq_iff p.table_id id)

is_visible_target :
    (id target snapshot : ℤ) (p : StoredPartition)
    → target ≢ id
    → (p.table_id == target) ≡ true
    → is_visible id snapshot p ≡ false
is_visible_target id target snapshot p h e =
    is_visible_other id snapshot p
      (λ same. h (sym (ground (arith, e, int_eq.beq_iff p.table_id target)) ∙ same))

module _ (pg : Pg) (id snapshot : ℤ) where
  select-same :
      (t t' : Tables)
      → filter (is_visible id snapshot) t'.partitions ≡ filter (is_visible id snapshot) t.partitions
      → select_partitions pg id snapshot t' ≡ select_partitions pg id snapshot t
  unfolding select_partitions
  select-same t t' e =
      ap (λ l. map (scan_partition pg) (order_by (λ (p : StoredPartition). p.partition_id) l)) e

  pub select-append_other :
      (t : Tables) (p : StoredPartition)
      → p.table_id ≢ id
      → select_partitions pg id snapshot (record t { partitions = t.partitions ++ p ∷ [] })
        ≡ select_partitions pg id snapshot t
  select-append_other t p h =
      select-same t _ (filter-append_other _ t.partitions p (is_visible_other id snapshot p h))

  pub select-mark_other :
      (t : Tables) (target : ℤ) (key : Text) (later : ℤ)
      → target ≢ id
      → select_partitions pg id snapshot (record t {
        partitions = update_where (is_target pg target key) (mark_deleted pg later) t.partitions;
      })
        ≡ select_partitions pg id snapshot t
  select-mark_other t target key later h = select-same t _ (
      filter-update_other _ _ _
        (λ p chosen. (
          is_visible_target id target snapshot p h (ground (arith, chosen)),
          is_visible_target id target snapshot (mark_deleted pg later p) h (ground (arith, chosen)),
        ))
        t.partitions)

  pub select-delete_other :
      (t : Tables) (target : ℤ)
      → target ≢ id
      → select_partitions pg id snapshot (record t {
        partitions = filter (λ (r : StoredPartition). not (r.table_id == target)) t.partitions;
      })
        ≡ select_partitions pg id snapshot t
  select-delete_other t target h = select-same t _ (
      filter-filter_other _ _
        (λ p chosen. is_visible_target id target snapshot p h (ground (arith, chosen)))
        t.partitions)
