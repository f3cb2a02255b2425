-- ===== src/Catalog/Aside/Operations.antt =====
-- internal/catalog/catalog_manager.go: the operations on a table leave the others as they were.
use ice_core.Base.{
  ℕ, ◌≡◌, ◌≢◌, refl, Bool, true, false, ◌||◌, Option, none, some, [], ◌==◌, text_eq, nat_eq, Text,
  codes, arith, inl, inr, Bool-cases,
}
use ice_core.Base.Int.{ℤ, pos}
use ice_core.Db.Rows.{TableRow, Tables, Db}
use ice_core.Db.Exec.{Pg, Sql, pure, ◌>>◌, on_tx, require, begin_tx, commit_tx}
use ice_core.Db.Live.{UniqueIds, IdsBelow}
use ice_core.Db.Tables.{
  create_table_tx, get_table, update_table_schema, update_table_partition_spec_tx, insert_schema,
  rename_table,
}
use ice_core.Db.Specs.{insert_partition_spec_tx, insert_spec}
use ice_core.Db.Transactions.{drop_table, purge_rows, delete_table_row, delete_from}
use ice_core.Db.Triples.{
  Triple, triple_pure, triple_throw, triple_bind, triple_then, triple_message, triple_unless,
  triple_require, triple_read_pool, triple_given, triple_weaken,
}
use ice_core.Catalog.Manager.{
  record_initial_spec, create_table, existing_table, alter_table_partition_spec, alter_table_schema,
  drop_from_catalog, rename_in_catalog,
}
use ice_core.Catalog.Aside.{
  Local, Foreign, Idle, Open, Closed, triple-Local, triple-Open, triple_close, triple_id,
  triple-Local_pool,
}
use ice_core.Catalog.Aside.Statements.{
  Inert-Local, reading-Local, casting-Local, update_live-Local, soft_delete-Local,
  delete_table_row-Local, insert_table-Local, rename_row-Local,
}
use ice_core.Catalog.Aside.OnPartitions.{delete_partitions-Local}

module _ (pg : Pg) (others : Text → Type 0) (before : Tables) (base : ℕ)
    (u : UniqueIds before.tables) (b : IdsBelow base before.tables) where
  abbrev Out : Db → Type 0
  Out = Idle pg others before base

  abbrev In : Db → Type 0
  In = Open pg others before base

  abbrev Fin : Db → Type 0
  Fin = Closed pg others before base

  begin-In : Triple Out (begin_tx pg) (λ _. In) Out
  begin-In = triple-Open pg others before base u b

  finish : Triple In (commit_tx pg) (λ _. Fin) Out
  finish = triple_close pg others before base

  Local-In :
      {A : Type 0} (q : Sql A) → Local pg others before q → Triple In (on_tx pg q) (λ _. In) Out
  Local-In q l = triple_weaken (triple-Local pg others before base q l) (λ d h. h.idle)

  require-In : (c : Bool) (message : Text) → Triple In (require c message) (λ _. In) Out
  require-In c message = triple_require c message (λ d e h. h) (λ d h. h.idle)

  get_table-Out : (name : Text) → Triple Out (get_table pg name) (λ _. Out) Out
  unfolding get_table
  get_table-Out name =
      triple_unless none
        (triple_bind (triple_read_pool {P = Out} pg _ (λ d k. k))
          (λ t. triple_pure (some t) (λ d k. k)))
        (λ d k. k)

  existing_table-Out :
      (name : Text) (o : Option TableRow) → Triple Out (existing_table pg name o) (λ _. Out) Out
  unfolding existing_table
  existing_table-Out name none = triple_throw _ (λ d k. k)
  existing_table-Out name (some r) = triple_pure r (λ d k. k)

  insert_spec-Local :
      (id version : ℤ) (spec summary : Text)
      → Local pg others before (insert_spec pg id version spec summary)
  insert_spec-Local id version spec summary = Inert-Local pg others before _ (record {
    same_tables = λ m t s. ground arith;
    same_partitions = λ m t s. ground arith;
    same_seq = λ m t s. ground arith;
  })

  insert_schema-Local :
      (id version : ℤ) (schema summary : Text)
      → Local pg others before (insert_schema pg id version schema summary)
  insert_schema-Local id version schema summary = Inert-Local pg others before _ (record {
    same_tables = λ m t s. refl;
    same_partitions = λ m t s. refl;
    same_seq = λ m t s. refl;
  })

  insert_spec-In :
      (id version : ℤ) (json summary : Text)
      → Triple In (insert_partition_spec_tx pg id version json summary) (λ _. In) Out
  unfolding insert_partition_spec_tx
  insert_spec-In id version json summary =
      Local-In _
        (casting-Local pg others before _ _ (λ spec. insert_spec-Local id version spec summary))

  module _ (name : Text) (apart : (n : Text) → others n → n ≢ name) where
    pub alter_table_partition_spec-Aside :
        (json summary : Text)
        → Triple Out (alter_table_partition_spec pg name json summary) (λ _. Fin) Out
    unfolding alter_table_partition_spec update_table_partition_spec_tx
    alter_table_partition_spec-Aside json summary =
        triple_bind (triple_message pg _ (get_table-Out name)) (λ found.
          triple_bind (existing_table-Out name found) (λ row.
            triple_then (triple_message pg _ begin-In) (λ _.
              triple_then
                (triple_message pg _ (
                  Local-In _ (
                    casting-Local pg others before _ _ (λ spec.
                      update_live-Local pg others before name _ apart (λ r. refl) (λ r. refl)))))
                (λ _.
                  triple_then (triple_message pg _ (insert_spec-In _ _ json summary))
                    (λ _. triple_message pg _ finish)))))

    pub alter_table_schema-Aside :
        (json summary : Text) → Triple Out (alter_table_schema pg name json summary) (λ _. Fin) Out
    unfolding alter_table_schema update_table_schema
    alter_table_schema-Aside json summary =
        triple_bind (triple_message pg _ (get_table-Out name)) (λ found.
          triple_bind (existing_table-Out name found) (λ row.
            triple_then (triple_message pg _ begin-In) (λ _.
              triple_then
                (triple_message pg _ (
                  triple_then
                    (Local-In _ (
                      casting-Local pg others before _ _ (λ schema.
                        update_live-Local pg others before name _ apart (λ r. refl) (λ r. refl))))
                    (λ _. triple_bind (Local-In _ (reading-Local pg others before _)) (λ id.
                      Local-In _ (
                        casting-Local pg others before _ _
                          (λ schema. insert_schema-Local id _ schema summary))))))
                (λ _. triple_message pg _ finish))))

    delete_from-In :
        (f : Tables → Tables)
        → ((t : Tables) → (f t).tables ≡ t.tables)
        → ((t : Tables) → (f t).partitions ≡ t.partitions)
        → Triple In (delete_from pg f) (λ _. In) Out
    delete_from-In f e g = Local-In _ (
        Inert-Local pg others before _ (record {
          same_tables = λ m t s. e t;
          same_partitions = λ m t s. g t;
          same_seq = λ m t s. refl;
        }))

    purge_rows-In :
        (id : ℤ) → Foreign pg others before id → Triple In (purge_rows pg id) (λ _. In) Out
    unfolding purge_rows
    purge_rows-In id foreign = triple_then (delete_from-In _ (λ t. refl) (λ t. refl)) (λ _.
        triple_then (delete_from-In _ (λ t. refl) (λ t. refl)) (λ _.
          triple_then (Local-In _ (delete_partitions-Local pg others before id foreign)) (λ _.
            triple_then (delete_from-In _ (λ t. refl) (λ t. refl)) (λ _.
              triple_then (delete_from-In _ (λ t. refl) (λ t. refl))
                (λ _. delete_from-In _ (λ t. refl) (λ t. refl))))))

    abbrev OwnId : Option ℤ → Type 0
    OwnId none = Unit
    OwnId (some id) = Foreign pg others before id

    drop_found-In :
        (found : Option ℤ)
        → Triple
            (λ d. OwnId found × In d)
            (elim found [
              | none ↦ pure false
              | some id ↦ purge_rows pg id >> on_tx pg (delete_table_row pg name)
            ])
            (λ _. In)
            Out
    drop_found-In none = triple_pure false (λ d h. h.1)
    drop_found-In (some id) = triple_given (λ foreign.
        triple_then (purge_rows-In id foreign)
          (λ _. Local-In _ (delete_table_row-Local pg others before name apart)))

    drop_table-In : (purge : Bool) → Triple In (drop_table pg name purge) (λ _. In) Out
    unfolding drop_table
    drop_table-In true =
        triple_bind
          (triple_weaken
            (triple_unless {Q = λ found d. OwnId found × In d} none
              (triple_bind (triple_id pg others before base name apart)
                (λ id. triple_pure (some id) (λ d h. h)))
              (λ d h. (tt, h)))
            (λ d h. h.idle))
          drop_found-In
    drop_table-In false = Local-In _ (soft_delete-Local pg others before name apart)

    pub drop_from_catalog-Aside :
        (purge : Bool) → Triple Out (drop_from_catalog pg name purge) (λ _. Fin) Out
    unfolding drop_from_catalog
    drop_from_catalog-Aside purge = triple_then (triple_message pg _ begin-In) (λ _.
        triple_bind (triple_message pg _ (drop_table-In purge))
          (λ dropped. triple_then (require-In _ _) (λ _. triple_message pg _ finish)))

  record_initial_spec-In :
      (id : ℤ) (json : Text) → Triple In (record_initial_spec pg id json) (λ _. In) Out
  unfolding record_initial_spec
  record_initial_spec-In id json = elim (Bool-cases (json == [] || json == codes "null")) [
    | inl absent ↦ rw absent (triple_pure tt (λ d k. k))
    | inr present ↦ rw present (triple_message pg _ (insert_spec-In _ _ _ _))
  ]

  pub create_table-Aside :
      (name schema spec properties : Text)
      → Triple Out (create_table pg name schema spec properties) (λ _. Fin) Out
  unfolding create_table create_table_tx
  create_table-Aside name schema spec properties = triple_then (triple_message pg _ begin-In) (λ _.
      triple_bind
        (triple_message pg _ (
          triple_weaken
            (triple_unless {E = In} (pos 0, false)
              (triple_bind
                (triple-Local pg others before base _ (
                  casting-Local pg others before _ _ (λ s. casting-Local pg others before _ _ (λ p.
                    casting-Local pg others before _ _
                      (λ o. insert_table-Local pg others before name s p o)))))
                (λ id. triple_pure (id, true) (λ d k. k)))
              (λ d k. k))
            (λ d h. h.idle)))
        (λ made. triple_then (require-In _ _) (λ _.
          triple_then (record_initial_spec-In made.0 spec) (λ _. triple_message pg _ finish))))

  -- The rename is one statement of the pool; whether it fails or not, the other tables are the same.
  pub rename_in_catalog-Aside :
      (name new_name : Text)
      → ((n : Text) → others n → (n ≢ name) × (n ≢ new_name))
      → Triple Fin (rename_in_catalog pg name new_name) (λ _. Fin) Fin
  unfolding rename_in_catalog rename_table
  rename_in_catalog-Aside name new_name apart =
      triple_bind
        (triple_message pg _ (
          triple-Local_pool pg others before base _
            (rename_row-Local pg others before name new_name apart)))
        (λ renamed. triple_require _ _ (λ d e h. h) (λ d h. h))
