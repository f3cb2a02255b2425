-- ===== src/Server/Samples.antt =====
-- A server's surroundings in which no call fails.
use ice_core.Base.{some, [], codes, err, ok}
use ice_core.Base.Int.{pos}
use ice_core.Catalog.Samples.{sound_pg}
use ice_core.Catalog.Stores.{object}
use ice_core.Server.{Env}
use ice_core.Server.Convert.{PartitionInfo}

abbrev pub sample_env : Env
sample_env = record {
  pg = sound_pg;
  json = record { unmarshal = λ t. err (codes "no JSON"); marshal = λ s. codes "{}" };
  marshal_properties = λ p. some (codes "{}");
  unmarshal_properties = λ t. some [];
  unmarshal_object = λ t. ok (object 1);
  quote = λ t. t;
  range_items = λ items. items;
  range_bounds = λ d. d;
  range_active = λ d. d;
}

abbrev pub new_part : PartitionInfo
new_part = record {
  partition_key = codes "b";
  data_file_path = [];
  row_count = pos 5;
  size_bytes = pos 50;
  snapshot_id = 0;
  file_format = [];
  column_stats = [];
}
