-- ===== src/Db/ColumnBounds/Merged.antt =====
-- What `GetColumnStatsForSnapshot` sums up of a column: the same as one pass over the statistics of that
-- column alone, and bounds that leave out none of them.
mod Tests
use ice_core.Base.{
  ◌≡◌, ◌≢◌, refl, sym, ap, ◌∙◌, true, ◌&&◌, ◌||◌, not, Option, none, some, List, [], ◌∷◌, ◌++◌,
  ◌==◌, nat_eq, text_eq, if◌then◌else◌, filter, filter-append, All, arith, Bool-cases, if_true,
  if_false, inl, inr, ◌⊎◌,
}
use ice_core.Base.Int.{ℤ, int_eq}
use ice_core.Base.Dict.{Dict, lookup, insert, lookup-insert}
use ice_core.Db.Rows.{ColumnStats, PartitionRow}
use ice_core.Db.ColumnBounds.{Agg, merge_stats, agg_of, merge_file, merge_files}
use ice_core.Db.ColumnBounds.Pass.{merge_from, Covers, merge_from-All}
use ice_core.Db.ColumnBounds.Attained.{IsAttained, merge_from-IsAttained}

-- All statistics of a column, in the order of the files.
abbrev pub all_stats : List PartitionRow → List ColumnStats
all_stats [] = []
all_stats (p ∷ ps) = p.column_stats ++ all_stats ps

abbrev pub of_column : ℤ → List ColumnStats → List ColumnStats
of_column c = filter (λ cs. cs.column_id == c)

merge_from-append :
    (l k : List ColumnStats) (o : Option Agg)
    → merge_from o (l ++ k) ≡ merge_from (merge_from o l) k
unfolding merge_from
merge_from-append [] k o = refl
merge_from-append (cs ∷ l) k o = merge_from-append l k (some (merge_stats (agg_of o) cs))

same_id : (a b : ℤ) → (a == b) ≡ true → a ≡ b
same_id a b h = ground (arith, h, int_eq.beq_iff a b)

lookup-merge_file :
    (c : ℤ) (l : List ColumnStats) (d : Dict ℤ Agg)
    → lookup c (merge_file d l) ≡ merge_from (lookup c d) (of_column c l)
unfolding merge_file merge_from
lookup-merge_file c [] d = refl
lookup-merge_file c (cs ∷ l) d =
    let summary : Agg = merge_stats (agg_of (lookup cs.column_id d)) cs in
    let inserted = lookup-insert cs.column_id c summary d in
    lookup-merge_file c l (insert cs.column_id summary d) ∙ elim (Bool-cases (cs.column_id == c)) [
      | inl same ↦
          ap (λ o. merge_from o (of_column c l))
            (inserted
              ∙ if_true _ _ same
              ∙ ap (λ k. some (merge_stats (agg_of (lookup k d)) cs)) (same_id cs.column_id c same))
          ∙ sym (ap (merge_from (lookup c d)) (if_true (cs ∷ of_column c l) (of_column c l) same))
      | inr other ↦
          ap (λ o. merge_from o (of_column c l)) (inserted ∙ if_false _ _ other)
          ∙ sym (ap (merge_from (lookup c d)) (if_false (cs ∷ of_column c l) (of_column c l) other))
    ]

lookup-merge_files_from :
    (c : ℤ) (d : Dict ℤ Agg) (rows : List PartitionRow)
    → lookup c (merge_files d rows) ≡ merge_from (lookup c d) (of_column c (all_stats rows))
unfolding merge_files merge_from
lookup-merge_files_from c d [] = refl
lookup-merge_files_from c d (p ∷ ps) =
    lookup-merge_files_from c (merge_file d p.column_stats) ps
    ∙ ap (λ o. merge_from o (of_column c (all_stats ps))) (lookup-merge_file c p.column_stats d)
    ∙ sym (merge_from-append (of_column c p.column_stats) (of_column c (all_stats ps)) (lookup c d))
    ∙ ap (merge_from (lookup c d))
        (sym (filter-append (λ cs. cs.column_id == c) p.column_stats (all_stats ps)))

-- The summary of a column, over whatever files, is that of one pass over the statistics of the column
-- alone, and there is none if the files have none of it.
pub lookup-merge_files :
    (c : ℤ) (rows : List PartitionRow)
    → lookup c (merge_files [] rows) ≡ merge_from none (of_column c (all_stats rows))
unfolding lookup
lookup-merge_files c rows = lookup-merge_files_from c [] rows

-- In the order of Go's strings, which compares bytes whatever the type of the column, the bounds in the
-- summary of a column are the tight ones: where the statistics of the column in a file give a least value,
-- the summary has one that is not above it, and where they give a greatest value, that of the summary is
-- not below it; and a least value of the summary is that of some file, and so is a greatest value that is
-- not empty. (No other order is meant: of "10" and "5" the summary has "10" as its least value.)
pub merge_files-Covers :
    (c : ℤ) (rows : List PartitionRow) (a : Agg)
    → lookup c (merge_files [] rows) ≡ some a
    → All (Covers a) (of_column c (all_stats rows)) × IsAttained a (of_column c (all_stats rows))
merge_files-Covers c rows a e =
    let found = sym (lookup-merge_files c rows) ∙ e in
    (
      merge_from-All (of_column c (all_stats rows)) none a found,
      merge_from-IsAttained (of_column c (all_stats rows)) a found,
    )
