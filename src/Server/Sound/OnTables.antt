-- ===== src/Server/Sound/OnTables.antt =====
-- Every handler keeps the agreement of the cache with the database, and none meets a nil element of the
-- cache.
use ice_core.Base.{
  ℕ, ◌≢◌, refl, sym, Bool, true, false, Option, none, some, List, [], ◌∷◌, Text, ◌==◌, text_eq,
  nat_eq, inl, inr, Bool-cases, Option-cases, if◌then◌else◌,
}
use mathlib.Core.Path.{subst}
use ice_core.Base.Int.{ℤ, int_eq}
use ice_core.Base.Dict.{Dict}
use ice_core.Db.Rows.{TableRow}
use ice_core.Db.Exec.{Pg, done, raised}
use ice_core.Catalog.Registry
use ice_core.Catalog.Registry.Cached.{get_partitions-Answered}
use ice_core.Catalog.Aside.Operations.{
  create_table-Aside, alter_table_schema-Aside, alter_table_partition_spec-Aside,
  rename_in_catalog-Aside, drop_from_catalog-Aside,
}
use ice_core.Server.{Env, MetadataServer, Handler, OperationResponse, invalidate, answer}
use ice_core.Server.Tables.{
  Alteration, new_schema_json, rename, new_partition_spec, unspecified, named, present,
  partitions_answered, read_partitions, read_properties, empty_or, create_table, get_table_metadata,
  alter_schema, alter_spec, alter, alter_table, drop_table, count_partitions, summaries,
  list_tables, invalidate_if_done,
}
use ice_core.Server.Sound.{
  SoundFor, IsSound, AllNames, Runs, After, runs_answer, runs_refuse, runs_bind, runs_then,
  runs_demand, runs_query, runs_to, runs_from,
}
use ice_core.Server.Sound.Reads.{
  get_table-Quiet, get_current_schema-Quiet, get_current_spec-Quiet, list_tables-Quiet,
  get_visible_partition_count-Quiet,
}
use ice_core.Server.Sound.Changes.{
  Ranges, Attempted, runs_attempt, runs_attempt_pool, runs_invalidate,
}

-- A handler that leaves a sound server sound, and answers.
abbrev pub Keeps : {A : Type 0} → Pg → Handler A → Type 0
Keeps pg h = Runs (IsSound pg) h (λ _. IsSound pg) (IsSound pg)

module _ (pg : Pg) where
  pub answer-Keeps : {A : Type 0} (a : A) → Keeps pg (answer a)
  answer-Keeps a = runs_answer a (λ s h. h)

  pub named-Keeps : (name : Text) → Keeps pg (named name)
  named-Keeps name = runs_demand _ _ _ (λ s h. h)

  pub present-Keeps : {A : Type 0} (message : Text) (o : Option A) → Keeps pg (present message o)
  unfolding present
  present-Keeps message none = runs_refuse _ message (λ s h. h)
  present-Keeps message (some a) = runs_answer a (λ s h. h)

  pub if-Keeps :
      {A : Type 0} (c : Bool) {h k : Handler A}
      → Keeps pg h
      → Keeps pg k
      → Keeps pg (if c then h else k)
  if-Keeps true h k = h
  if-Keeps false h k = k

module _ (env : Env) where
  read_properties-Keeps : (json : Text) → Keeps env.pg (read_properties env json)
  unfolding read_properties
  read_properties-Keeps json = elim (Bool-cases (json == [])) [
    | inl empty ↦ rw empty (answer-Keeps env.pg [])
    | inr full ↦ elim (Option-cases (env.unmarshal_properties json)) [
      | inl bad ↦ rw (full, bad) (runs_refuse _ _ (λ s h. h))
      | inr (properties, good) ↦ rw (full, good) (answer-Keeps env.pg properties)
    ]
  ]

  After-read :
      (s : MetadataServer) (a : Registry.Answer) (r : Registry.PartitionRegistry)
      → IsSound env.pg (record s { partitions = r })
      → After (λ _. IsSound env.pg) (IsSound env.pg) (partitions_answered env s (some (a, r)))
  After-read s (done rows) r h = h
  After-read s (raised e) r h = h

  -- A read through the cache.
  pub read_partitions-Keeps :
      (name : Text) (snapshot : ℕ) → Keeps env.pg (read_partitions env name snapshot)
  unfolding read_partitions
  read_partitions-Keeps name snapshot = record {
    at = λ s h.
        let (a, r, runs, answered) =
          get_partitions-Answered env.pg s.partitions name snapshot
            (record { valid = h.valid; kept = λ n v rows l. h.kept n v rows tt l }) in
        subst (λ o. After (λ _. IsSound env.pg) (IsSound env.pg) (partitions_answered env s o))
          (sym runs)
          (After-read s a r (record {
            valid = answered.coherent.valid;
            kept = λ n v rows o l. answered.coherent.kept n v rows l;
            unique = rw answered.same h.unique;
            below = rw (answered.same, answered.numbers) h.below;
          }));
  }

  pub create_table-Keeps :
      (name schema spec : Text) (properties : Dict Text Text)
      → Keeps env.pg (create_table env name schema spec properties)
  unfolding create_table
  create_table-Keeps name schema spec properties =
      runs_to
        (runs_attempt env.pg AllNames _
          (λ before base u b. create_table-Aside env.pg AllNames before base u b name schema _ _))
        (λ a s q. q.others_sound)

  pub get_table_metadata-Keeps :
      (name : Text) (snapshot : ℕ) → Keeps env.pg (get_table_metadata env name snapshot)
  unfolding get_table_metadata
  get_table_metadata-Keeps name snapshot = runs_then (named-Keeps env.pg name) (λ _.
      runs_bind (runs_query env.pg _ (get_table-Quiet env.pg name)) (λ found.
        runs_bind (present-Keeps env.pg _ found) (λ table.
          runs_bind (read_partitions-Keeps name _)
            (λ parts. runs_bind (read_properties-Keeps _) (λ properties. answer-Keeps env.pg _)))))

  count_partitions-Keeps :
      (name : Text) (current : ℕ) → Keeps env.pg (count_partitions env name current)
  unfolding count_partitions
  count_partitions-Keeps name current =
      if-Keeps env.pg _
        (runs_query env.pg _ (get_visible_partition_count-Quiet env.pg name current))
        (answer-Keeps env.pg _)

  summaries-Keeps : (rows : List TableRow) (acc : List _) → Keeps env.pg (summaries env rows acc)
  unfolding summaries
  summaries-Keeps [] acc = answer-Keeps env.pg acc
  summaries-Keeps (t ∷ ts) acc =
      runs_bind (count_partitions-Keeps t.table_name _) (λ count. summaries-Keeps ts _)

  pub list_tables-Keeps :
      (namespace : Text) (size : ℤ) (token : Text)
      → Keeps env.pg (list_tables env namespace size token)
  unfolding list_tables
  list_tables-Keeps namespace size token =
      runs_bind (runs_query env.pg _ (list_tables-Quiet env.pg namespace size token))
        (λ rows. runs_bind (summaries-Keeps rows []) (λ tables. answer-Keeps env.pg _))

  module _ (ranges : Ranges env) where
    -- The cache is emptied of the only table that it may not agree on.
    emptied-Keeps :
        (name : Text)
        → Runs
            (SoundFor env.pg (λ n. n ≢ name))
            (invalidate env name)
            (λ _. IsSound env.pg)
            (IsSound env.pg)
    emptied-Keeps name = runs_invalidate env _ AllNames name ranges (λ n o apart. apart)

    alter_schema-Keeps :
        (name json objection : Text) → Keeps env.pg (alter_schema env name json objection)
    unfolding alter_schema
    alter_schema-Keeps name json objection = if-Keeps env.pg _ (answer-Keeps env.pg _) (
        runs_bind
          (runs_to
            (runs_attempt env.pg (λ n. n ≢ name) _
              (λ before base u b.
                alter_table_schema-Aside env.pg _ before base u b name (λ n o. o) json _))
            (λ a s q. q.others_sound))
          (λ result. runs_then (emptied-Keeps name) (λ _. answer-Keeps env.pg result)))

    alter_spec-Keeps :
        (name json objection : Text) → Keeps env.pg (alter_spec env name json objection)
    unfolding alter_spec
    alter_spec-Keeps name json objection = if-Keeps env.pg _ (answer-Keeps env.pg _) (
        runs_bind
          (runs_to
            (runs_attempt env.pg (λ n. n ≢ name) _
              (λ before base u b.
                alter_table_partition_spec-Aside env.pg _ before base u b name (λ n o. o) json _))
            (λ a s q. q.others_sound))
          (λ result. runs_then (emptied-Keeps name) (λ _. answer-Keeps env.pg result)))

    rename-Keeps :
        (name : Text) (new_name : Option Text) → Keeps env.pg (alter env name (rename new_name))
    unfolding alter
    rename-Keeps name new_name = runs_then (runs_demand _ _ _ (λ s h. h)) (λ _.
        runs_bind
          (runs_attempt_pool env.pg (λ n. (n ≢ name) × (n ≢ empty_or new_name)) _
            (λ before base u b.
              rename_in_catalog-Aside env.pg _ before base u b name (empty_or new_name) (λ n o. o)))
          (λ result.
            runs_then
              (runs_invalidate env _ (λ n. n ≢ empty_or new_name) name ranges
                (λ n o apart. (apart, o)))
              (λ _.
                runs_then (emptied-Keeps (empty_or new_name)) (λ _. answer-Keeps env.pg result))))

    alter-Keeps : (name : Text) (alteration : Alteration) → Keeps env.pg (alter env name alteration)
    unfolding alter
    alter-Keeps name (new_schema_json json) =
        runs_bind (runs_query env.pg _ (get_current_schema-Quiet env.pg name))
          (λ current. alter_schema-Keeps name json _)
    alter-Keeps name (rename new_name) = rename-Keeps name new_name
    alter-Keeps name (new_partition_spec p) =
        runs_bind (runs_query env.pg _ (get_current_spec-Quiet env.pg name))
          (λ current. alter_spec-Keeps name _ _)
    alter-Keeps name unspecified = answer-Keeps env.pg _

    pub alter_table-Keeps :
        (name : Text) (alteration : Alteration) → Keeps env.pg (alter_table env name alteration)
    unfolding alter_table
    alter_table-Keeps name alteration =
        runs_then (named-Keeps env.pg name) (λ _. alter-Keeps name alteration)

    invalidate_if_done-Keeps :
        (name : Text) (result : OperationResponse)
        → Runs
            (Attempted env.pg (λ n. n ≢ name) result)
            (invalidate_if_done env name result)
            (λ _. IsSound env.pg)
            (IsSound env.pg)
    invalidate_if_done-Keeps name result = elim (Bool-cases result.success) [
      | inl good ↦ rw good (runs_from (λ s q. q.others_sound) (emptied-Keeps name))
      | inr bad ↦ rw bad (runs_answer tt (λ s q. q.sound refl))
    ]

    pub drop_table-Keeps : (name : Text) (purge : Bool) → Keeps env.pg (drop_table env name purge)
    unfolding drop_table
    drop_table-Keeps name purge = runs_then (named-Keeps env.pg name) (λ _.
        runs_bind
          (runs_attempt env.pg (λ n. n ≢ name) _
            (λ before base u b.
              drop_from_catalog-Aside env.pg _ before base u b name (λ n o. o) purge))
          (λ result.
            runs_then (invalidate_if_done-Keeps name result) (λ _. answer-Keeps env.pg result)))
