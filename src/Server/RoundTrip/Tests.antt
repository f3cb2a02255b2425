-- ===== src/Server/RoundTrip/Tests.antt =====
-- Partition specs that are translated and translated back.
use ice_core.Base.{◌≡◌, [], ◌∷◌, some, codes, arith}
use ice_core.Base.Int.{pos}
use ice_core.Spec.{PartitionSpec, transform_bucket, valid_transform}
use ice_core.Server.Convert.{
  PartitionSpecProto, identity, truncate, proto_to_partition_spec, partition_spec_to_proto,
}
use ice_core.Server.RoundTrip.{
  partition_spec_to_proto-proto_to_partition_spec, proto_to_partition_spec-partition_spec_to_proto,
}

abbrev two_fields : PartitionSpecProto
two_fields =
    record {
      field_id = pos 1;
      source_column = codes "day";
      transform = identity;
      transform_param = pos 0;
    }
    ∷ record {
      field_id = pos 2;
      source_column = codes "name";
      transform = truncate;
      transform_param = pos 4;
    }
    ∷ []

abbrev by_bucket : PartitionSpec
by_bucket = record {
  fields =
      record {
        field_id = pos 1;
        source_column = codes "user";
        transform = transform_bucket;
        transform_param = some (pos 16);
      }
      ∷ [];
}

partition_spec_to_proto-proto_to_partition_spec_example :
    partition_spec_to_proto (proto_to_partition_spec (some two_fields)) ≡ two_fields
partition_spec_to_proto-proto_to_partition_spec_example =
    partition_spec_to_proto-proto_to_partition_spec two_fields (
      record { id = ground arith; param = ground arith; named = tt },
      (record { id = ground arith; param = ground arith; named = tt }, tt),
    )

proto_to_partition_spec-partition_spec_to_proto_example :
    proto_to_partition_spec (some (partition_spec_to_proto by_bucket)) ≡ by_bucket
unfolding valid_transform
proto_to_partition_spec-partition_spec_to_proto_example =
    proto_to_partition_spec-partition_spec_to_proto by_bucket
      (record { id = ground arith; valid = ground arith; param = ground arith }, tt)
