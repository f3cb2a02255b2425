-- ===== src/Catalog/Manager/Atomic.antt =====
-- An operation on a table that fails leaves the committed tables as they were.
use ice_core.Base.{
  ◌≡◌, refl, Bool, true, false, ◌||◌, Option, none, some, [], ◌==◌, text_eq, Text, codes,
  Bool-cases, inl, inr,
}
use mathlib.Core.Path.{subst}
use ice_core.Base.Int.{ℤ, pos}
use ice_core.Db.Rows.{TableRow, Tables, Db}
use ice_core.Db.Exec.{
  Pg, Exec, Sql, Outcome, DbError, done, raised, pure, ◌>>◌, on_tx, require, begin_tx, commit_tx,
}
use ice_core.Db.Tables.{
  create_table_tx, get_table, update_table_schema, update_table_partition_spec_tx,
}
use ice_core.Db.Specs.{insert_partition_spec_tx}
use ice_core.Db.Transactions.{drop_table, purge_rows, delete_table_row}
use ice_core.Db.Triples.{
  Post, Triple, triple_pure, triple_throw, triple_bind, triple_then, triple_message, triple_unless,
  triple_require, triple_on_tx, triple_begin, triple_commit, triple_read_pool,
}
use ice_core.Catalog.Manager.{
  record_initial_spec, create_table, existing_table, alter_table_partition_spec, alter_table_schema,
  drop_from_catalog,
}

module _ (pg : Pg) (before : Tables) where
  abbrev Kept : Db → Type 0
  Kept d = d.committed ≡ before

  Post-Kept : {A : Type 0} (r : Outcome A) (d : Db) → Kept d → Post (λ _. Kept) Kept (r, d)
  Post-Kept (done a) d k = k
  Post-Kept (raised e) d k = k

  -- A statement in a transaction commits nothing.
  in_tx-Kept : {A : Type 0} (q : Sql A) → Triple Kept (on_tx pg q) (λ _. Kept) Kept
  in_tx-Kept q =
      triple_on_tx pg q (λ d k. Post-Kept (q d.begun d.pending d.sequences).0 _ k) (λ d k c. k)

  begin-Kept : Triple Kept (begin_tx pg) (λ _. Kept) Kept
  begin-Kept = triple_begin pg (λ d k. k) (λ d k. k)

  finish : Triple Kept (commit_tx pg) (λ _ d. Unit) Kept
  finish = triple_commit pg (λ d k. tt) (λ d k. k)

  require-Kept : (b : Bool) (message : Text) → Triple Kept (require b message) (λ _. Kept) Kept
  require-Kept b message = triple_require b message (λ d e k. k) (λ d k. k)

  get_table-Kept : (name : Text) → Triple Kept (get_table pg name) (λ _. Kept) Kept
  unfolding get_table
  get_table-Kept name =
      triple_unless none
        (triple_bind (triple_read_pool {P = Kept} pg _ (λ d k. k))
          (λ t. triple_pure (some t) (λ d k. k)))
        (λ d k. k)

  existing_table-Kept :
      (name : Text) (o : Option TableRow) → Triple Kept (existing_table pg name o) (λ _. Kept) Kept
  unfolding existing_table
  existing_table-Kept name none = triple_throw _ (λ d k. k)
  existing_table-Kept name (some r) = triple_pure r (λ d k. k)

  alter_table_partition_spec-Kept :
      (name json summary : Text)
      → Triple Kept (alter_table_partition_spec pg name json summary) (λ _ d. Unit) Kept
  unfolding alter_table_partition_spec update_table_partition_spec_tx insert_partition_spec_tx
  alter_table_partition_spec-Kept name json summary =
      triple_bind (triple_message pg _ (get_table-Kept name)) (λ found.
        triple_bind (existing_table-Kept name found) (λ row.
          triple_then (triple_message pg _ begin-Kept) (λ _.
            triple_then (triple_message pg _ (in_tx-Kept _)) (λ _.
              triple_then (triple_message pg _ (in_tx-Kept _)) (λ _. triple_message pg _ finish)))))

  alter_table_schema-Kept :
      (name json summary : Text)
      → Triple Kept (alter_table_schema pg name json summary) (λ _ d. Unit) Kept
  unfolding alter_table_schema update_table_schema
  alter_table_schema-Kept name json summary =
      triple_bind (triple_message pg _ (get_table-Kept name)) (λ found.
        triple_bind (existing_table-Kept name found) (λ row.
          triple_then (triple_message pg _ begin-Kept) (λ _.
            triple_then
              (triple_message pg _
                (triple_then (in_tx-Kept _) (λ _. triple_bind (in_tx-Kept _) (λ id. in_tx-Kept _))))
              (λ _. triple_message pg _ finish))))

  record_initial_spec-Kept :
      (id : ℤ) (json : Text) → Triple Kept (record_initial_spec pg id json) (λ _. Kept) Kept
  unfolding record_initial_spec insert_partition_spec_tx
  record_initial_spec-Kept id json = elim (Bool-cases (json == [] || json == codes "null")) [
    | inl absent ↦ rw absent (triple_pure tt (λ d k. k))
    | inr present ↦ rw present (triple_message pg _ (in_tx-Kept _))
  ]

  create_table-Kept :
      (name schema spec properties : Text)
      → Triple Kept (create_table pg name schema spec properties) (λ _ d. Unit) Kept
  unfolding create_table create_table_tx
  create_table-Kept name schema spec properties = triple_then (triple_message pg _ begin-Kept) (λ _.
      triple_bind
        (triple_message pg _ (
          triple_unless (pos 0, false)
            (triple_bind (in_tx-Kept _) (λ id. triple_pure (id, true) (λ d k. k))) (λ d k. k)))
        (λ made. triple_then (require-Kept _ _) (λ _.
          triple_then (record_initial_spec-Kept made.0 spec) (λ _. triple_message pg _ finish))))

  purge_rows-Kept : (id : ℤ) → Triple Kept (purge_rows pg id) (λ _. Kept) Kept
  unfolding purge_rows
  purge_rows-Kept id = triple_then (in_tx-Kept _) (λ _. triple_then (in_tx-Kept _) (λ _.
      triple_then (in_tx-Kept _)
        (λ _. triple_then (in_tx-Kept _) (λ _. triple_then (in_tx-Kept _) (λ _. in_tx-Kept _)))))

  drop_found-Kept :
      (name : Text) (found : Option ℤ)
      → Triple Kept
          (elim found [
            | none ↦ pure false
            | some id ↦ purge_rows pg id >> on_tx pg (delete_table_row pg name)
          ])
          (λ _. Kept)
          Kept
  drop_found-Kept name none = triple_pure false (λ d k. k)
  drop_found-Kept name (some id) = triple_then (purge_rows-Kept id) (λ _. in_tx-Kept _)

  drop_table-Kept :
      (name : Text) (purge : Bool) → Triple Kept (drop_table pg name purge) (λ _. Kept) Kept
  unfolding drop_table
  drop_table-Kept name true =
      triple_bind
        (triple_unless none (triple_bind (in_tx-Kept _) (λ id. triple_pure (some id) (λ d k. k)))
          (λ d k. k))
        (drop_found-Kept name)
  drop_table-Kept name false = in_tx-Kept _

  drop_from_catalog-Kept :
      (name : Text) (purge : Bool)
      → Triple Kept (drop_from_catalog pg name purge) (λ _ d. Unit) Kept
  unfolding drop_from_catalog
  drop_from_catalog-Kept name purge = triple_then (triple_message pg _ begin-Kept) (λ _.
      triple_bind (triple_message pg _ (drop_table-Kept name purge))
        (λ dropped. triple_then (require-Kept _ _) (λ _. triple_message pg _ finish)))

  failure-Kept :
      {A : Type 0} (m : Exec A) (d d' : Db) (x : DbError)
      → Triple Kept m (λ _ d. Unit) Kept
      → Kept d
      → m d ≡ (raised x, d')
      → Kept d'
  failure-Kept m d d' x h k e = subst (Post (λ _ d. Unit) Kept) e (h.at d k)

module _ (pg : Pg) (d d' : Db) (x : DbError) where
  -- A `CreateTable` that fails, at whatever statement or test, leaves the committed tables as they
  -- were.
  pub create_table-failure :
      (name schema spec properties : Text)
      → create_table pg name schema spec properties d ≡ (raised x, d')
      → d'.committed ≡ d.committed
  create_table-failure name schema spec properties =
      failure-Kept pg d.committed _ d d' x
        (create_table-Kept pg d.committed name schema spec properties) refl

  -- An `AlterTableSchema` that fails, at whatever statement or test, leaves the committed tables as
  -- they were.
  pub alter_table_schema-failure :
      (name json summary : Text)
      → alter_table_schema pg name json summary d ≡ (raised x, d')
      → d'.committed ≡ d.committed
  alter_table_schema-failure name json summary =
      failure-Kept pg d.committed _ d d' x
        (alter_table_schema-Kept pg d.committed name json summary) refl

  -- An `AlterTablePartitionSpec` that fails, at whatever statement or test, leaves the committed
  -- tables as they were.
  pub alter_table_partition_spec-failure :
      (name json summary : Text)
      → alter_table_partition_spec pg name json summary d ≡ (raised x, d')
      → d'.committed ≡ d.committed
  alter_table_partition_spec-failure name json summary =
      failure-Kept pg d.committed _ d d' x
        (alter_table_partition_spec-Kept pg d.committed name json summary) refl

  -- A `DropTable` that fails, with or without a purge and at whatever statement or test, leaves the
  -- committed tables as they were.
  pub drop_from_catalog-failure :
      (name : Text) (purge : Bool)
      → drop_from_catalog pg name purge d ≡ (raised x, d')
      → d'.committed ≡ d.committed
  drop_from_catalog-failure name purge =
      failure-Kept pg d.committed _ d d' x (drop_from_catalog-Kept pg d.committed name purge) refl
