-- ===== src/Catalog/Stores.antt =====
-- internal/catalog/schema_store.go, partition_spec_store.go (the reads) and manifest_store.go. The shared
-- lock of the table makes each read one step.
use ice_core.Base.{
  ℕ, Bool, true, ◌&&◌, ◌||◌, Option, none, some, List, [], ◌∷◌, map, ◌==◌, nat_eq, if◌then◌else◌,
  Text, codes, filter, Result, ok, err,
}
use ice_core.Base.Int.{ℤ, pos, ltb_ℤ, int_eq}
use ice_core.Db.Rows.{TableRow, PartitionSpecRow, StoredSchema, ManifestFileRow, ManifestListRow}
use ice_core.Db.Exec.{Pg, Exec, done, raised, pure, ◌>>=◌, reading, on_pool}
use ice_core.Db.Select.{first_row, order_by_desc}
use ice_core.Db.Tables.{get_table, get_table_id}
use ice_core.Db.Specs.{get_partition_spec_by_version, list_partition_spec_history}
use ice_core.Db.Manifests.{get_manifest_list, get_manifest_file}

pub record SchemaVersion : Type 0 where
  pub version : ℤ
  pub schema_json : Text
  pub changed_at : Text
  pub change_summary : Text

pub record PartitionSpecVersion : Type 0 where
  pub version : ℤ
  pub spec_json : Text
  pub changed_at : Text
  pub change_summary : Text

-- `strings.TrimSpace(s) == ""`, at ASCII text: the white space of other scripts is not trimmed.
abbrev pub is_space : ℕ → Bool
is_space c = c == 32 || c == 9 || c == 10 || c == 11 || c == 12 || c == 13

unfoldable pub is_blank : Text → Bool
is_blank [] = true
is_blank (c ∷ cs) = is_space c && is_blank cs

-- encoding/json at `map[string]any`: an error, a nil map, or a map by its number of keys.
pub data JsonObject : Type 0 where
  null_object : JsonObject
  object : ℕ → JsonObject

abbrev pub check_object : Result JsonObject → Text
check_object (err e) = codes "Proposed schema must be valid JSON object"
check_object (ok null_object) = codes "Proposed schema must be valid JSON object"
check_object (ok (object n)) = if n == 0 then codes "Proposed schema cannot be empty" else []

-- The message is empty if the schema is valid.
unfoldable pub validate_schema_change : (Text → Result JsonObject) → Text → Text
unfolding is_blank
validate_schema_change unmarshal proposed_json =
    if is_blank proposed_json
    then codes "Proposed schema cannot be empty"
    else check_object (unmarshal proposed_json)

module _ (pg : Pg) where
  abbrev pub current_schema : Option TableRow → Option SchemaVersion
  current_schema none = none
  current_schema (some t) = some (record {
    version = t.schema_version;
    schema_json = t.schema_json;
    changed_at = [];
    change_summary = codes "current";
  })

  unfoldable pub get_current_schema : Text → Exec (Option SchemaVersion)
  get_current_schema table_name = do found ← get_table pg table_name; pure (current_schema found)

  abbrev pub scan_schema : StoredSchema → SchemaVersion
  scan_schema r = record {
    version = r.schema_version;
    schema_json = r.schema_json;
    changed_at = pg.show_time r.changed_at;
    change_summary = r.change_summary;
  }

  -- Whatever the error of the scan, the answer is nil.
  unfoldable pub or_nil : {A : Type 0} → Exec (Option A) → Exec (Option A)
  or_nil m d = let (r, d') = m d in elim r [ done a ↦ (done a, d') | raised e ↦ (done none, d') ]

  unfoldable pub get_schema_at_version : Text → ℤ → Exec (Option SchemaVersion)
  get_schema_at_version table_name version = do
    table_id ← get_table_id pg table_name
    if ltb_ℤ table_id (pos 0)
        then pure none
        else or_nil (do
          row ← on_pool pg (
              reading λ t. first_row (
                filter (λ (r : StoredSchema). r.table_id == table_id && r.schema_version == version)
                  t.schema_history))
          pure (some (scan_schema row)))

  unfoldable pub list_schema_history : Text → Exec (List SchemaVersion)
  list_schema_history table_name = do
    table_id ← get_table_id pg table_name
    if ltb_ℤ table_id (pos 0)
        then pure []
        else on_pool pg (
            reading λ t. done (
              map scan_schema (
                order_by_desc (λ r. r.schema_version)
                  (filter (λ (r : StoredSchema). r.table_id == table_id) t.schema_history))))

  abbrev pub current_spec : Option TableRow → Option PartitionSpecVersion
  current_spec none = none
  current_spec (some t) = some (record {
    version = t.partition_spec_version;
    spec_json = t.partition_spec;
    changed_at = [];
    change_summary = codes "current";
  })

  unfoldable pub get_current_spec : Text → Exec (Option PartitionSpecVersion)
  get_current_spec table_name = do found ← get_table pg table_name; pure (current_spec found)

  abbrev pub spec_version_of : PartitionSpecRow → PartitionSpecVersion
  spec_version_of r = record {
    version = r.spec_version;
    spec_json = r.spec_json;
    changed_at = r.changed_at;
    change_summary = r.change_summary;
  }

  abbrev pub found_version : Option PartitionSpecRow → Option PartitionSpecVersion
  found_version none = none
  found_version (some r) = some (spec_version_of r)

  unfoldable pub get_spec_at_version : Text → ℤ → Exec (Option PartitionSpecVersion)
  get_spec_at_version table_name version = do
    table_id ← get_table_id pg table_name
    if ltb_ℤ table_id (pos 0) then pure none else do
      found ← get_partition_spec_by_version pg table_id version
      pure (found_version found)

  unfoldable pub list_spec_history : Text → Exec (List PartitionSpecVersion)
  list_spec_history table_name = do
    table_id ← get_table_id pg table_name
    if ltb_ℤ table_id (pos 0)
        then pure []
        else do rows ← list_partition_spec_history pg table_id; pure (map spec_version_of rows)

  unfoldable pub manifest_list_of :
      Text → ℕ → Exec (Option (ManifestListRow × List ManifestFileRow))
  manifest_list_of = get_manifest_list pg

  unfoldable pub manifest_file_of : Text → ℤ → Exec (Option ManifestFileRow)
  manifest_file_of = get_manifest_file pg
