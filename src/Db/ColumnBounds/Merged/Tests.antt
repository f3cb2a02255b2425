-- ===== src/Db/ColumnBounds/Merged/Tests.antt =====
-- The statistics of two files.
use ice_core.Base.{◌≡◌, refl, none, List, [], ◌∷◌, codes, All, true}
use ice_core.Base.Int.{pos, int_eq, add64}
use ice_core.Base.Dict.{lookup, insert}
use ice_core.Db.Rows.{ColumnStats, PartitionRow}
use ice_core.Db.ColumnBounds.{text_ltb, Agg, add_min, add_max, merge_stats, merge_file, merge_files}
use ice_core.Db.ColumnBounds.Merged.{all_stats, of_column, lookup-merge_files, merge_files-Covers}
use ice_core.Db.ColumnBounds.Pass.{merge_from, Covers}
use ice_core.Db.ColumnBounds.Attained.{IsAttained}
use ice_core.Catalog.Samples.{added}

abbrev low_column : ColumnStats
low_column = record {
  column_id = pos 4;
  null_count = pos 1;
  nan_count = pos 0;
  value_count = pos 9;
  min_value = codes "b";
  max_value = codes "d";
  size_bytes = pos 0;
}

abbrev high_column : ColumnStats
high_column = record low_column { min_value = codes "c"; max_value = codes "e" }

abbrev two_files : List PartitionRow
two_files =
    record added { column_stats = high_column ∷ [] }
    ∷ record added { column_stats = low_column ∷ [] }
    ∷ []

abbrev summed : Agg
summed = record {
  null_count = pos 2;
  nan_count = pos 0;
  value_count = pos 18;
  min_value = codes "b";
  max_value = codes "e";
  has_min = true;
}

lookup-merge_files_example :
    lookup (pos 4) (merge_files [] two_files)
    ≡ merge_from none (of_column (pos 4) (all_stats two_files))
lookup-merge_files_example = lookup-merge_files (pos 4) two_files

-- The numbers of a column, as text: "10" is before "5".
abbrev ten_and_five : List PartitionRow
ten_and_five =
    record added {
      column_stats = record low_column { min_value = codes "10"; max_value = codes "500" } ∷ [];
    }
    ∷ record added {
      column_stats = record low_column { min_value = codes "5"; max_value = codes "900" } ∷ [];
    }
    ∷ []

abbrev summed_texts : Agg
summed_texts = record summed { min_value = codes "10"; max_value = codes "900" }

merge_files-Covers_example :
    All (Covers summed_texts) (of_column (pos 4) (all_stats ten_and_five))
    × IsAttained summed_texts (of_column (pos 4) (all_stats ten_and_five))
unfolding merge_files merge_file lookup insert merge_stats add_min add_max text_ltb add64
merge_files-Covers_example = merge_files-Covers (pos 4) ten_and_five summed_texts refl
