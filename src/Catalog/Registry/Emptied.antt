-- ===== src/Catalog/Registry/Emptied.antt =====
-- A commit that succeeds leaves nothing of its table in the cache.
use ice_core.Base.{
  ℕ, ◌≡◌, refl, sym, ap, ◌∙◌, Bool, true, false, none, List, [], ◌∷◌, ◌++◌, nat_eq, text_eq,
  text_beq_iff, if◌then◌else◌, arith, Text, codes, length, take, leb, if_true, if_false,
}
use mathlib.Core.List.{append_assoc}
use ice_core.Base.Decimal.{format_uint}
use ice_core.Base.Dict.{Dict, lookup}
use ice_core.Base.Range.{IsOrder}
use ice_core.Db.Rows.{PartitionRow, Db}
use ice_core.Db.Exec.{Pg, done}
use ice_core.Cache.Shape.{IsValid}
use ice_core.Cache.Order.{view}
use ice_core.Cache.Ranges.{keep, invalidate_if-view}
use ice_core.Catalog.Commit.{commit_to_db}
use ice_core.Catalog.Registry.{
  PartitionRegistry, make_cache_key, has_prefix, invalidate_table_cache, finish_commit,
  commit_snapshot,
}

pub lookup-keep :
    {V : Type 0} (pred : Text → Bool) (k : Text) (d : Dict Text V)
    → lookup k (keep pred d) ≡ (if pred k then none else lookup k d)
unfolding lookup
lookup-keep pred k [] = ground arith
lookup-keep pred k ((j, v) ∷ d) = ground (arith, lookup-keep pred k d, text_beq_iff j k)

prefix_here :
    (p x : Text) → (leb (length p) (length (p ++ x)) ≡ true) × (take (length p) (p ++ x) ≡ p)
prefix_here [] x = ground arith
prefix_here (c ∷ p) x = ground (arith, prefix_here p x)

has_prefix-append : (p x : Text) → has_prefix p (p ++ x) ≡ true
unfolding has_prefix
has_prefix-append p x = ground (arith, prefix_here p x, text_beq_iff p p)

pub has_prefix-make_cache_key :
    (table : Text) (snapshot : ℕ)
    → has_prefix (table ++ codes ":") (make_cache_key table snapshot) ≡ true
unfolding make_cache_key
has_prefix-make_cache_key table snapshot =
    ap (has_prefix (table ++ codes ":"))
      (sym (append_assoc table (codes ":") (format_uint snapshot)))
    ∙ has_prefix-append (table ++ codes ":") (format_uint snapshot)

-- A `CommitSnapshot` that succeeds, on a registry whose cache is valid and whatever the order in
-- which Go ranges over it, leaves a valid cache that holds no list of the table at any snapshot, and
-- under every key without the prefix of the table what it held before.
pub commit_snapshot-emptied :
    (pg : Pg) (r : PartitionRegistry) (table_name : Text) (parent : ℕ) (operation : Text)
    (parts : List PartitionRow) (keys : List Text) (range : Dict Text ℕ) (a : ℕ) (d : Db)
    → IsValid r.cache
    → IsOrder r.cache.items range
    → commit_to_db pg table_name parent operation parts keys r.db ≡ (done a, d)
    → (r' : PartitionRegistry) × (commit_snapshot pg r table_name parent operation parts keys range
        ≡ (done a, r'))
      × (r'.db ≡ d)
      × IsValid r'.cache
      × ((snapshot : ℕ) → lookup (make_cache_key table_name snapshot) (view r'.cache) ≡ none)
      × ((key : Text)
          → has_prefix (table_name ++ codes ":") key ≡ false
          → lookup key (view r'.cache) ≡ lookup key (view r.cache))
unfolding commit_snapshot finish_commit invalidate_table_cache
commit_snapshot-emptied pg r table_name parent operation parts keys range a d v o e =
    let (valid, shows, counted, cap) =
      invalidate_if-view (has_prefix (table_name ++ codes ":")) range r.cache v o in
    (
      (invalidate_table_cache (record r { db = d }) table_name range).1,
      ap (finish_commit r table_name range) e,
      refl,
      valid,
      λ snapshot.
          ap (lookup (make_cache_key table_name snapshot)) shows
          ∙ lookup-keep (has_prefix (table_name ++ codes ":")) (make_cache_key table_name snapshot)
              (view r.cache)
          ∙ if_true none _ (has_prefix-make_cache_key table_name snapshot),
      λ key other.
          ap (lookup key) shows
          ∙ lookup-keep (has_prefix (table_name ++ codes ":")) key (view r.cache)
          ∙ if_false none _ other,
    )
