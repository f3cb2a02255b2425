-- ===== src/Db/ColumnBounds.antt =====
-- internal/db/pg_client.go: `GetColumnStatsForSnapshot`, which sums up the column statistics of all
-- files that a snapshot shows.
pub mod Pass
pub mod Attained
pub mod Merged
use ice_core.Base.{
  ℕ, Bool, true, false, ◌&&◌, ◌||◌, not, Option, none, some, List, [], ◌∷◌, ◌==◌, nat_eq, text_eq,
  if◌then◌else◌, Text, ltb,
}
use ice_core.Base.Int.{ℤ, pos, add64, int_eq}
use ice_core.Base.Dict.{Dict, lookup, insert}
use ice_core.Db.Rows.{ColumnStats, PartitionRow}
use ice_core.Db.Exec.{Pg, Exec, pure, ◌>>=◌}
use ice_core.Db.Partitions.{query_partitions}

-- Go's `<` on strings: byte by byte.
unfoldable pub text_ltb : Text → Text → Bool
text_ltb [] [] = false
text_ltb [] (b ∷ t) = true
text_ltb (a ∷ s) [] = false
text_ltb (a ∷ s) (b ∷ t) = ltb a b || (a == b && text_ltb s t)

-- The local type `agg`.
pub record Agg : Type 0 where
  pub null_count : ℤ
  pub nan_count : ℤ
  pub value_count : ℤ
  pub min_value : Text
  pub max_value : Text
  pub has_min : Bool

abbrev pub no_agg : Agg
no_agg = record {
  null_count = pos 0;
  nan_count = pos 0;
  value_count = pos 0;
  min_value = [];
  max_value = [];
  has_min = false;
}

abbrev pub add_counts : Agg → ColumnStats → Agg
add_counts a cs = record a {
  null_count = add64 a.null_count cs.null_count;
  nan_count = add64 a.nan_count cs.nan_count;
  value_count = add64 a.value_count cs.value_count;
}

-- `if cs.MinValue != "" { if !a.hasMin || cs.MinValue < a.minValue { … } }`
unfoldable pub add_min : Agg → Text → Agg
add_min a m =
    if not (m == []) && (not a.has_min || text_ltb m a.min_value)
    then record a { min_value = m; has_min = true }
    else a

-- `if cs.MaxValue != "" && cs.MaxValue > a.maxValue`
unfoldable pub add_max : Agg → Text → Agg
add_max a m = if not (m == []) && text_ltb a.max_value m then record a { max_value = m } else a

unfoldable pub merge_stats : Agg → ColumnStats → Agg
unfolding add_min add_max
merge_stats a cs = add_max (add_min (add_counts a cs) cs.min_value) cs.max_value

abbrev pub agg_of : Option Agg → Agg
agg_of none = no_agg
agg_of (some a) = a

-- The inner loop, over the statistics of one file.
unfoldable pub merge_file : Dict ℤ Agg → List ColumnStats → Dict ℤ Agg
merge_file by_col [] = by_col
merge_file by_col (cs ∷ rest) =
    merge_file (insert cs.column_id (merge_stats (agg_of (lookup cs.column_id by_col)) cs) by_col)
      rest

-- The loop over the files.
unfoldable pub merge_files : Dict ℤ Agg → List PartitionRow → Dict ℤ Agg
merge_files by_col [] = by_col
merge_files by_col (p ∷ rest) = merge_files (merge_file by_col p.column_stats) rest

-- The last loop, over the entries in the order in which Go ranges over the map.
unfoldable pub bounds_of : Dict ℤ Agg → List ColumnStats
bounds_of [] = []
bounds_of ((column_id, a) ∷ range) =
    record {
      column_id = column_id;
      null_count = a.null_count;
      nan_count = a.nan_count;
      value_count = a.value_count;
      min_value = a.min_value;
      max_value = a.max_value;
      size_bytes = pos 0;
    }
    ∷ bounds_of range

-- A nil slice has no files.
abbrev pub files_of : Option (List PartitionRow) → List PartitionRow
files_of none = []
files_of (some rows) = rows

-- `ranges` is the order in which Go ranges over a map.
unfoldable pub get_column_stats_for_snapshot :
    Pg → (Dict ℤ Agg → Dict ℤ Agg) → Text → ℕ → Exec (List ColumnStats)
get_column_stats_for_snapshot pg ranges table_name snapshot_id = do
  rows ← query_partitions pg table_name snapshot_id
  pure (bounds_of (ranges (merge_files [] (files_of rows))))
