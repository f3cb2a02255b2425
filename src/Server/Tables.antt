-- ===== src/Server/Tables.antt =====
-- internal/server/metadata_server.go: the handlers on whole tables.
use ice_core.Base.{
  ℕ, Bool, ◌&&◌, not, Option, none, some, List, [], ◌∷◌, ◌++◌, ◌==◌, nat_eq, text_eq, if◌then◌else◌,
  Text, codes, length, ltb,
}
use ice_core.Base.Int.{ℤ, pos, ltb_ℤ, int_eq, to_uint64, add64}
use ice_core.Base.Decimal.{parse_int64, format_int}
use ice_core.Base.Dict.{Dict}
use ice_core.Db.Rows.{PartitionRow, TableRow}
use ice_core.Db.Tables.{get_table, list_tables as db_tables}
use ice_core.Db.Partitions.{get_visible_partition_count}
use ice_core.Spec.{validate_spec_change}
use ice_core.Spec.Messages.{message_or_empty}
use ice_core.Catalog.Stores.{
  SchemaVersion, PartitionSpecVersion, validate_schema_change, get_current_schema, get_current_spec,
}
use ice_core.Catalog.Manager
use ice_core.Catalog.Registry
use ice_core.Server.{
  Env, MetadataServer, Reply, Handler, invalid_argument, not_found, internal, answer, refuse, ◌>>=◌,
  ◌>>◌, demand, query, OperationResponse, failing, attempt, invalidate, queried,
}
use ice_core.Server.Convert.{
  PartitionSpecProto, PartitionInfo, properties_to_json, initial_spec_json, proto_to_partition_spec,
  column_stats_to_proto, info_of,
}

pub record TableMetadataResponse : Type 0 where
  pub table_name : Text
  pub schema_json : Text
  pub current_snapshot_id : ℕ
  pub schema_version : ℤ
  pub partitions : List PartitionInfo
  pub properties : Dict Text Text
  pub total_row_count : ℤ
  pub total_size_bytes : ℤ

-- The oneof of `AlterTableRequest`; the messages in it may be nil.
pub data Alteration : Type 0 where
  new_schema_json : Text → Alteration
  rename : Option Text → Alteration
  new_partition_spec : Option PartitionSpecProto → Alteration
  unspecified : Alteration

pub record TableSummary : Type 0 where
  pub table_name : Text
  pub current_snapshot_id : ℕ
  pub total_partitions : ℤ

pub record ListTablesResponse : Type 0 where
  pub tables : List TableSummary
  pub next_page_token : Text

-- `if tableName == "" { return … }`
abbrev pub named : Text → Handler (Unit {0})
named table_name = demand (not (table_name == [])) invalid_argument (codes "table_name is required")

-- `if table == nil { return … }`
unfoldable pub present : {A : Type 0} → Text → Option A → Handler A
unfolding refuse answer
present message none = refuse not_found message
present message (some a) = answer a

-- `s.partitions.GetPartitions`
abbrev pub partitions_answered :
    Env
    → MetadataServer
    → Option (Registry.Answer × Registry.PartitionRegistry)
    → Option (Reply (Option (List PartitionRow)) × MetadataServer)
partitions_answered env s none = none
partitions_answered env s (some (a, r)) = queried env.pg (record s { partitions = r }) (a, r.db)

unfoldable pub read_partitions : Env → Text → ℕ → Handler (Option (List PartitionRow))
read_partitions env table_name snapshot s =
    partitions_answered env s (Registry.get_partitions env.pg s.partitions table_name snapshot)

-- `json.Unmarshal` of the properties, unless the text is empty.
unfoldable pub read_properties : Env → Text → Handler (Dict Text Text)
unfolding refuse answer
read_properties env properties_json =
    if properties_json == [] then answer [] else elim (env.unmarshal_properties properties_json) [
      | none ↦ refuse internal (codes "failed to parse table properties JSON")
      | some properties ↦ answer properties
    ]

abbrev pub rows_of : Option (List PartitionRow) → List PartitionRow
rows_of none = []
rows_of (some rows) = rows

-- The loop over the partitions of the table.
unfoldable pub add_infos : List PartitionRow → TableMetadataResponse → TableMetadataResponse
add_infos [] resp = resp
add_infos (p ∷ ps) resp = add_infos ps (record resp {
  partitions = resp.partitions ++ info_of (column_stats_to_proto p.column_stats) p ∷ [];
  total_row_count = add64 resp.total_row_count p.row_count;
  total_size_bytes = add64 resp.total_size_bytes p.size_bytes;
})

abbrev pub snapshot_to_read : ℕ → TableRow → ℕ
snapshot_to_read snapshot_id table =
    if snapshot_id == 0
    then (if ltb_ℤ table.current_snapshot_id (pos 0)
        then 0
        else to_uint64 table.current_snapshot_id)
    else snapshot_id

abbrev pub current_or_zero : TableRow → ℕ
current_or_zero t =
    if ltb_ℤ (pos 0) t.current_snapshot_id then to_uint64 t.current_snapshot_id else 0

abbrev pub empty_or : Option Text → Text
empty_or none = []
empty_or (some t) = t

abbrev pub spec_json_of : Option PartitionSpecVersion → Text
spec_json_of none = []
spec_json_of (some sv) = sv.spec_json

module _ (env : Env) where
  unfoldable pub create_table : Text → Text → Text → Dict Text Text → Handler OperationResponse
  create_table table_name schema_json partition_spec properties = attempt env.pg (
      Manager.create_table env.pg table_name schema_json (initial_spec_json env.json partition_spec)
        (properties_to_json env properties))

  unfoldable pub get_table_metadata : Text → ℕ → Handler TableMetadataResponse
  get_table_metadata table_name snapshot_id = do
    named table_name
    found ← query env.pg (get_table env.pg table_name)
    table ← present (codes "table not found: " ++ table_name) found
    parts ← read_partitions env table_name (snapshot_to_read snapshot_id table)
    properties ← read_properties env table.properties_json
    answer (
        add_infos (rows_of parts) (record {
          table_name = table.table_name;
          schema_json = table.schema_json;
          current_snapshot_id = snapshot_to_read snapshot_id table;
          schema_version = table.schema_version;
          partitions = [];
          properties = properties;
          total_row_count = pos 0;
          total_size_bytes = pos 0;
        }))

  -- `if current != nil { … }`
  abbrev pub schema_objection : Option SchemaVersion → Text → Text
  schema_objection none json = []
  schema_objection (some _) json = validate_schema_change env.unmarshal_object json

  -- The alteration is made, and then the cache is emptied of the table.
  unfoldable pub alter_schema : Text → Text → Text → Handler OperationResponse
  alter_schema table_name json objection =
      if not (objection == []) then answer (failing objection) else do
        result ← attempt env.pg (
            Manager.alter_table_schema env.pg table_name json
              (codes "schema evolution via AlterTable"))
        invalidate env table_name
        answer result

  unfoldable pub alter_spec : Text → Text → Text → Handler OperationResponse
  alter_spec table_name json objection =
      if not (objection == []) then answer (failing objection) else do
        result ← attempt env.pg (
            Manager.alter_table_partition_spec env.pg table_name json
              (codes "partition spec evolution via AlterTable"))
        invalidate env table_name
        answer result

  unfoldable pub alter : Text → Alteration → Handler OperationResponse
  alter table_name (new_schema_json json) = do
    current ← query env.pg (get_current_schema env.pg table_name)
    alter_schema table_name json (schema_objection current json)
  alter table_name (rename new_name) = do
    demand (not (empty_or new_name == [])) invalid_argument (codes "new table name is required")
    result ← attempt env.pg (Manager.rename_in_catalog env.pg table_name (empty_or new_name))
    invalidate env table_name
    invalidate env (empty_or new_name)
    answer result
  alter table_name (new_partition_spec p) = do
    current ← query env.pg (get_current_spec env.pg table_name)
    let json = env.json.marshal (proto_to_partition_spec p)
    alter_spec table_name json
        (message_or_empty env.quote (validate_spec_change env.json (spec_json_of current) json))
  alter table_name unspecified = answer (failing (codes "no alteration specified"))

  unfoldable pub alter_table : Text → Alteration → Handler OperationResponse
  alter_table table_name alteration = do named table_name; alter table_name alteration

  abbrev pub invalidate_if_done : Text → OperationResponse → Handler (Unit {0})
  invalidate_if_done table_name result =
      if result.success then invalidate env table_name else answer tt

  unfoldable pub drop_table : Text → Bool → Handler OperationResponse
  drop_table table_name purge = do
    named table_name
    result ← attempt env.pg (Manager.drop_from_catalog env.pg table_name purge)
    invalidate_if_done table_name result
    answer result

  unfoldable pub count_partitions : Text → ℕ → Handler ℤ
  count_partitions table_name current =
      if ltb 0 current
      then query env.pg (get_visible_partition_count env.pg table_name current)
      else answer (pos 0)

  -- The loop over the rows.
  unfoldable pub summaries : List TableRow → List TableSummary → Handler (List TableSummary)
  summaries [] acc = answer acc
  summaries (t ∷ ts) acc = do
    count ← count_partitions t.table_name (current_or_zero t)
    summaries ts (
        acc
        ++ record {
          table_name = t.table_name;
          current_snapshot_id = current_or_zero t;
          total_partitions = count;
        }
          ∷ [])

  abbrev pub offset_of : Text → ℤ
  offset_of page_token = elim (parse_int64 page_token) [ none ↦ pos 0 | some n ↦ n ]

  -- The token of the next page; it is empty after the last.
  unfoldable pub next_token : ℤ → Text → ℕ → Text
  next_token page_size page_token count =
      if ltb_ℤ (pos 0) page_size && pos count == page_size
      then format_int (add64 (offset_of page_token) (pos count))
      else []

  unfoldable pub list_tables : Text → ℤ → Text → Handler ListTablesResponse
  list_tables namespace page_size page_token = do
    rows ← query env.pg (db_tables env.pg namespace page_size page_token)
    tables ← summaries rows []
    answer (record {
      tables = tables;
      next_page_token = next_token page_size page_token (length rows);
    })
