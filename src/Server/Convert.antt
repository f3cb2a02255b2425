-- ===== src/Server/Convert.antt =====
-- internal/server/metadata_server.go: the conversions between the messages of the protocol and the
-- catalog's types.
use ice_core.Base.{
  ℕ, Option, none, some, List, [], ◌∷◌, map, ◌==◌, text_eq, if◌then◌else◌, Text, codes,
}
use ice_core.Base.Int.{ℤ, pos, to_int32, to_uint64, int_eq}
use ice_core.Base.Dict.{Dict}
use ice_core.Db.Rows.{ColumnStats, PartitionRow}
use ice_core.Spec.{
  SpecJson, PartitionSpec, PartitionField, PartitionTransform, transform_identity, transform_year,
  transform_month, transform_day, transform_hour, transform_bucket, transform_truncate,
}
use ice_core.Server.{Env}

unfoldable pub default_string : Text → Text → Text
default_string v fallback = if v == [] then fallback else v

-- The enum of the protocol; an open enum keeps a number that it does not name.
pub data TransformProto : Type 0 where
  identity : TransformProto
  year : TransformProto
  month : TransformProto
  day : TransformProto
  hour : TransformProto
  bucket : TransformProto
  truncate : TransformProto
  unrecognized : ℤ → TransformProto

-- A parameter 0 is one that is not set.
pub record PartitionFieldProto : Type 0 where
  pub field_id : ℤ
  pub source_column : Text
  pub transform : TransformProto
  pub transform_param : ℤ

abbrev pub PartitionSpecProto : Type 0
PartitionSpecProto = List PartitionFieldProto

unfoldable pub properties_to_json : Env → Dict Text Text → Text
properties_to_json env [] = codes "{}"
properties_to_json env (p ∷ ps) = elim (env.marshal_properties (p ∷ ps)) [
  | none ↦ codes "{}"
  | some b ↦ b
]

unfoldable pub initial_spec_json : SpecJson → Text → Text
initial_spec_json json raw_spec =
    if raw_spec == []
    then []
    else json.marshal (record {
      fields =
          record {
            field_id = pos 1;
            source_column = raw_spec;
            transform = transform_identity;
            transform_param = none;
          }
          ∷ [];
    })

unfoldable pub proto_transform_to_string : TransformProto → PartitionTransform
proto_transform_to_string year = transform_year
proto_transform_to_string month = transform_month
proto_transform_to_string day = transform_day
proto_transform_to_string hour = transform_hour
proto_transform_to_string bucket = transform_bucket
proto_transform_to_string truncate = transform_truncate
proto_transform_to_string identity = transform_identity
proto_transform_to_string (unrecognized n) = transform_identity

unfoldable pub string_transform_to_proto : PartitionTransform → TransformProto
string_transform_to_proto t =
    if t == transform_year
    then year
    else if t == transform_month
    then month
    else if t == transform_day
    then day
    else if t == transform_hour
    then hour
    else if t == transform_bucket
    then bucket
    else if t == transform_truncate
    then truncate
    else identity

-- The bodies of the two loops over the fields.
abbrev pub field_of_proto : PartitionFieldProto → PartitionField
field_of_proto f = record {
  field_id = f.field_id;
  source_column = f.source_column;
  transform = proto_transform_to_string f.transform;
  transform_param = if f.transform_param == pos 0 then none else some f.transform_param;
}

abbrev pub param_to_proto : Option ℤ → ℤ
param_to_proto none = pos 0
param_to_proto (some n) = to_int32 n

abbrev pub field_to_proto : PartitionField → PartitionFieldProto
field_to_proto f = record {
  field_id = to_int32 f.field_id;
  source_column = f.source_column;
  transform = string_transform_to_proto f.transform;
  transform_param = param_to_proto f.transform_param;
}

-- `none` is the nil message.
unfoldable pub proto_to_partition_spec : Option PartitionSpecProto → PartitionSpec
proto_to_partition_spec none = record { fields = [] }
proto_to_partition_spec (some p) = record { fields = map field_of_proto p }

unfoldable pub partition_spec_to_proto : PartitionSpec → PartitionSpecProto
partition_spec_to_proto spec = map field_to_proto spec.fields

-- The messages have the fields of `db.ColumnStats` by the same names; a nil slice is empty.
unfoldable pub proto_to_column_stats : List ColumnStats → List ColumnStats
proto_to_column_stats [] = []
proto_to_column_stats (cs ∷ rest) = cs ∷ proto_to_column_stats rest

unfoldable pub column_stats_to_proto : List ColumnStats → List ColumnStats
column_stats_to_proto [] = []
column_stats_to_proto (cs ∷ rest) = cs ∷ column_stats_to_proto rest

pub record PartitionInfo : Type 0 where
  pub partition_key : Text
  pub data_file_path : Text
  pub row_count : ℤ
  pub size_bytes : ℤ
  pub snapshot_id : ℕ
  pub file_format : Text
  pub column_stats : List ColumnStats

-- The message of a row, with its statistics or without.
abbrev pub info_of : List ColumnStats → PartitionRow → PartitionInfo
info_of stats p = record {
  partition_key = p.partition_key;
  data_file_path = p.data_file_path;
  row_count = p.row_count;
  size_bytes = p.size_bytes;
  snapshot_id = to_uint64 p.snapshot_id;
  file_format = p.file_format;
  column_stats = stats;
}
