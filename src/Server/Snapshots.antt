-- ===== src/Server/Snapshots.antt =====
-- internal/server/metadata_server.go: the handlers that read snapshots, partition specs and manifests.
use ice_core.Base.{
  ℕ, not, List, [], ◌∷◌, map, ◌==◌, nat_eq, text_eq, if◌then◌else◌, Text, codes, ok, err,
}
use ice_core.Base.Int.{ℤ, pos, int_eq, to_uint64}
use ice_core.Db.Rows.{SnapshotRow, ManifestFileRow}
use ice_core.Db.Snapshots as DbSnapshots
use ice_core.Spec.{PartitionSpec}
use ice_core.Catalog.Stores.{
  PartitionSpecVersion, get_current_spec, get_spec_at_version, list_spec_history, manifest_list_of,
  manifest_file_of,
}
use ice_core.Server.{
  Env, Handler, invalid_argument, internal, answer, refuse, ◌>>=◌, ◌>>◌, demand, query,
}
use ice_core.Server.Convert.{PartitionSpecProto, partition_spec_to_proto}
use ice_core.Server.Tables.{named, present}

pub record SnapshotDetail : Type 0 where
  pub snapshot_id : ℕ
  pub parent_snapshot_id : ℕ
  pub operation : Text
  pub added_partitions : ℤ
  pub deleted_partitions : ℤ
  pub committed_at : Text

pub record PartitionSpecResponse : Type 0 where
  pub table_name : Text
  pub spec_version : ℤ
  pub spec : PartitionSpecProto
  pub changed_at : Text
  pub change_summary : Text

pub record ManifestFileSummary : Type 0 where
  pub manifest_file_id : ℤ
  pub manifest_path : Text
  pub partition_spec_id : ℤ
  pub added_files_count : ℤ
  pub deleted_files_count : ℤ
  pub added_rows_count : ℤ
  pub deleted_rows_count : ℤ
  pub partition_summaries_json : Text

pub record ManifestListResponse : Type 0 where
  pub snapshot_id : ℕ
  pub manifest_count : ℤ
  pub manifests : List ManifestFileSummary

pub record ManifestFileDetail : Type 0 where
  pub snapshot_id : ℕ
  pub summary : ManifestFileSummary
  pub open summary use *

abbrev pub detail_of : SnapshotRow → SnapshotDetail
detail_of snap = record {
  snapshot_id = to_uint64 snap.snapshot_id;
  parent_snapshot_id = to_uint64 snap.parent_snapshot_id;
  operation = snap.operation;
  added_partitions = snap.added_files_count;
  deleted_partitions = snap.deleted_files_count;
  committed_at = snap.committed_at;
}

abbrev pub summary_of : ManifestFileRow → ManifestFileSummary
summary_of f = record {
  manifest_file_id = f.manifest_file_id;
  manifest_path = f.manifest_path;
  partition_spec_id = f.partition_spec_id;
  added_files_count = f.added_files_count;
  deleted_files_count = f.deleted_files_count;
  added_rows_count = f.added_rows_count;
  deleted_rows_count = f.deleted_rows_count;
  partition_summaries_json = f.partition_summaries;
}

abbrev pub spec_response : Text → PartitionSpecVersion → PartitionSpec → PartitionSpecResponse
spec_response table_name sv spec = record {
  table_name = table_name;
  spec_version = sv.version;
  spec = partition_spec_to_proto spec;
  changed_at = sv.changed_at;
  change_summary = sv.change_summary;
}

module _ (env : Env) where
  unfoldable pub get_snapshot : Text → ℕ → Handler SnapshotDetail
  get_snapshot table_name snapshot_id = do
    found ← query env.pg (DbSnapshots.get_snapshot env.pg table_name snapshot_id)
    snap ← present (codes "snapshot not found") found
    answer (detail_of snap)

  unfoldable pub list_snapshots : Text → ℤ → Handler (List SnapshotDetail)
  list_snapshots table_name limit = do
    snapshots ← query env.pg (DbSnapshots.list_snapshots env.pg table_name limit)
    answer (map detail_of snapshots)

  unfoldable pub parsed_spec : Text → Handler PartitionSpec
  unfolding answer refuse
  parsed_spec json = elim (env.json.unmarshal json) [
    | err e ↦ refuse internal (codes "corrupt spec JSON")
    | ok spec ↦ answer spec
  ]

  unfoldable pub get_partition_spec : Text → ℤ → Handler PartitionSpecResponse
  get_partition_spec table_name spec_version = do
    named table_name
    found ← query env.pg (
        if spec_version == pos 0
        then get_current_spec env.pg table_name
        else get_spec_at_version env.pg table_name spec_version)
    sv ← present (codes "partition spec not found") found
    spec ← parsed_spec sv.spec_json
    answer (spec_response table_name sv spec)

  -- The loop over the history leaves out a spec that is no JSON.
  unfoldable pub spec_responses : Text → List PartitionSpecVersion → List PartitionSpecResponse
  spec_responses table_name [] = []
  spec_responses table_name (sv ∷ rest) =
      let later = spec_responses table_name rest in
      elim (env.json.unmarshal sv.spec_json) [
        | err e ↦ later
        | ok spec ↦ spec_response table_name sv spec ∷ later
      ]

  unfoldable pub list_partition_specs : Text → Handler (List PartitionSpecResponse)
  list_partition_specs table_name = do
    named table_name
    history ← query env.pg (list_spec_history env.pg table_name)
    answer (spec_responses table_name history)

  unfoldable pub get_manifest_list : Text → ℕ → Handler ManifestListResponse
  get_manifest_list table_name snapshot_id = do
    named table_name
    demand (not (snapshot_id == 0)) invalid_argument (codes "snapshot_id is required")
    found ← query env.pg (manifest_list_of env.pg table_name snapshot_id)
    (list, files) ← present (codes "manifest list not found for snapshot") found
    answer (record {
      snapshot_id = snapshot_id;
      manifest_count = list.manifest_count;
      manifests = map summary_of files;
    })

  unfoldable pub get_manifest : Text → ℤ → Handler ManifestFileDetail
  get_manifest table_name manifest_file_id = do
    named table_name
    demand (not (manifest_file_id == pos 0)) invalid_argument (codes "manifest_file_id is required")
    found ← query env.pg (manifest_file_of env.pg table_name manifest_file_id)
    f ← present (codes "manifest file not found") found
    answer (record { snapshot_id = to_uint64 f.snapshot_id; summary = summary_of f })
