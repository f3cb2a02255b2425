-- ===== src/Catalog/Registry/Cached.antt =====
-- The cache of the registry against the database: a read through the cache answers what the database
-- would, and keeps the cache so.
use ice_core.Base.{
  ℕ, ◌≡◌, refl, sym, ap, ◌∙◌, true, false, Option, none, some, List, [], ◌∷◌, Eq, nat_eq, text_eq,
  arith, Text, inl, inr, ◌⊎◌, Bool-cases, Option-cases, drop_last, if_true, if_false,
}
use ice_core.Base.Dict.{Dict, lookup, lookup-erase}
use ice_core.Db.Rows.{PartitionRow, Tables, Sequences}
use ice_core.Db.Exec.{Pg, DbError, done, raised}
use ice_core.Cache.{get}
use ice_core.Cache.Shape.{IsValid}
use ice_core.Cache.Order.{view, after_read, after_write, get-view}
use ice_core.Cache.Writes.{put-view}
use ice_core.Catalog.Registry.{
  PartitionRegistry, make_cache_key, Answer, store_rows, keep_rows, fetch_rows, cached_rows,
  read_rows, read_resolved, get_partitions,
}
use ice_core.Catalog.Registry.Answers.{
  make_cache_key_injective, rows_at, asked, query_partitions-rows_at, wanted,
  resolve_snapshot-wanted,
}

module _ {K V : Type 0} ⦃e : Eq K⦄ where
  lookup-after_read : (j k : K) (d : Dict K V) → lookup j (after_read k d) ≡ lookup j d
  unfolding lookup
  lookup-after_read j k d = ground (arith, lookup-erase k j d, e.beq_iff k j)

  lookup-drop_last :
      (j : K) (x : V) (d : Dict K V) → lookup j (drop_last d) ≡ some x → lookup j d ≡ some x
  unfolding lookup
  lookup-drop_last j x [] h = h
  lookup-drop_last j x (y ∷ []) h = cc h
  lookup-drop_last j x (y ∷ z ∷ d) h = ground (arith, lookup-drop_last j x (z ∷ d))

  -- After a write a key has the value written, or the one that it had.
  lookup-after_write :
      (cap : ℕ) (j k : K) (v x : V) (d : Dict K V)
      → lookup j (after_write cap k v d) ≡ some x
      → ((k ≡ j) × (v ≡ x)) ⊎ (lookup j d ≡ some x)
  unfolding lookup
  lookup-after_write cap j k v x d h =
      ground (arith, h, lookup-erase k j d, e.beq_iff k j, lookup-drop_last j x d)

-- Each list in the cache is what the database answers at its table and snapshot.
pub record Coherent (pg : Pg) (r : PartitionRegistry) : Type 0 where
  pub valid : IsValid r.cache
  pub kept :
      (table_name : Text) (snapshot : ℕ) (rows : List PartitionRow)
      → lookup (make_cache_key table_name snapshot) (view r.cache) ≡ some rows
      → rows_at pg table_name snapshot r.db.committed ≡ some rows

-- What a call leaves, and what it answers: `expected`, or an error.
pub record Answered (pg : Pg) (committed : Tables) (sequences : Sequences)
    (expected : Option (List PartitionRow)) (a : Answer) (r : PartitionRegistry) : Type 0 where
  pub coherent : Coherent pg r
  pub same : r.db.committed ≡ committed
  pub numbers : r.db.sequences ≡ sequences
  pub answer : (a ≡ done expected) ⊎ ((e : DbError) × (a ≡ raised e))

module _ (pg : Pg) where
  store_rows-Answered :
      (r : PartitionRegistry) (table_name : Text) (snapshot : ℕ) (rows : List PartitionRow)
      → Coherent pg r
      → rows_at pg table_name snapshot r.db.committed ≡ some rows
      → (a : Answer) × (r' : PartitionRegistry) × (store_rows r
            (make_cache_key table_name snapshot)
            rows
          ≡ some (a, r'))
        × Answered pg r.db.committed r.db.sequences (some rows) a r'
  unfolding store_rows
  store_rows-Answered r table_name snapshot rows h e = elim (Bool-cases r.disable_cache) [
    | inl off ↦ (
      done (some rows),
      r,
      simp off,
      record { coherent = h; same = refl; numbers = refl; answer = inl refl },
    )
    | inr on ↦
        let (c, stored, valid, shows, cap) =
          put-view r.cache (make_cache_key table_name snapshot) rows h.valid in
        (
          done (some rows),
          record r { cache = c },
          simp (on, stored),
          record {
            coherent = record {
              valid = valid;
              kept = λ t s x l.
                  elim (lookup-after_write r.cache.capacity _ _ rows x (view r.cache)
                    (rw shows at l)) [
                      | inl (same_key, same_rows) ↦
                          let (table, number) =
                            make_cache_key_injective table_name t snapshot s same_key in
                          ground (arith, e, table, number, same_rows)
                      | inr old ↦ h.kept t s x old
                    ];
            };
            same = refl;
            numbers = refl;
            answer = inl refl;
          },
        )
  ]

  keep_rows-Answered :
      (r : PartitionRegistry) (table_name : Text) (snapshot : ℕ) (o : Option (List PartitionRow))
      → Coherent pg r
      → rows_at pg table_name snapshot r.db.committed ≡ o
      → (a : Answer) × (r' : PartitionRegistry) × (keep_rows r
            (make_cache_key table_name snapshot)
            (done o)
          ≡ some (a, r'))
        × Answered pg r.db.committed r.db.sequences o a r'
  unfolding keep_rows
  keep_rows-Answered r table_name snapshot none h e =
      (done none, r, refl, record { coherent = h; same = refl; numbers = refl; answer = inl refl })
  keep_rows-Answered r table_name snapshot (some rows) h e =
      store_rows-Answered r table_name snapshot rows h e

  fetch_rows-Answered :
      (r : PartitionRegistry) (table_name : Text) (snapshot : ℕ)
      → Coherent pg r
      → (a : Answer) × (r' : PartitionRegistry) × (fetch_rows pg r table_name snapshot
          ≡ some (a, r'))
        × Answered pg r.db.committed r.db.sequences
            (rows_at pg table_name snapshot r.db.committed)
            a
            r'
  unfolding fetch_rows keep_rows
  fetch_rows-Answered r table_name snapshot h =
      let (n, outcome) = query_partitions-rows_at pg table_name snapshot r.db in
      let r' : PartitionRegistry = record r { db = asked n r.db } in
      let h' : Coherent pg r' = record { valid = h.valid; kept = h.kept } in
      elim outcome [
        | inl fine ↦
            let (a, r'', runs, answered) = keep_rows-Answered r' table_name snapshot _ h' refl in
            (a, r'', rw fine runs, answered)
        | inr (e, fault) ↦ (
          raised e,
          r',
          rw fault refl,
          record { coherent = h'; same = refl; numbers = refl; answer = inr (e, refl) },
        )
      ]

  read_rows-off :
      (r : PartitionRegistry) (table_name : Text) (snapshot : ℕ)
      → r.disable_cache ≡ true
      → read_rows pg r table_name snapshot ≡ fetch_rows pg r table_name snapshot
  unfolding read_rows
  read_rows-off r table_name snapshot off = if_true _ _ off

  read_rows-on :
      (r : PartitionRegistry) (table_name : Text) (snapshot : ℕ)
      → r.disable_cache ≡ false
      → read_rows pg r table_name snapshot
        ≡ cached_rows pg r table_name snapshot (get r.cache (make_cache_key table_name snapshot))
  unfolding read_rows
  read_rows-on r table_name snapshot on = if_false _ _ on

  read_rows-Answered :
      (r : PartitionRegistry) (table_name : Text) (snapshot : ℕ)
      → Coherent pg r
      → (a : Answer) × (r' : PartitionRegistry) × (read_rows pg r table_name snapshot
          ≡ some (a, r'))
        × Answered pg r.db.committed r.db.sequences
            (rows_at pg table_name snapshot r.db.committed)
            a
            r'
  unfolding cached_rows
  read_rows-Answered r table_name snapshot h = elim (Bool-cases r.disable_cache) [
    | inl off ↦
        let (a, r', runs, answered) = fetch_rows-Answered r table_name snapshot h in
        (a, r', read_rows-off r table_name snapshot off ∙ runs, answered)
    | inr on ↦
        let (c, gotten, valid, shows, cap) =
          get-view r.cache (make_cache_key table_name snapshot) h.valid in
        let r' : PartitionRegistry = record r { cache = c } in
        let h' : Coherent pg r' = record {
          valid = valid;
          kept = λ t s x l. h.kept t s x (
              sym (
                lookup-after_read (make_cache_key t s) (make_cache_key table_name snapshot)
                  (view r.cache))
              ∙ ap (lookup (make_cache_key t s)) (sym shows)
              ∙ l);
        } in
        elim (Option-cases (lookup (make_cache_key table_name snapshot) (view r.cache))) [
          | inl miss ↦
              let (a, r'', runs, answered) = fetch_rows-Answered r' table_name snapshot h' in
              (
                a,
                r'',
                read_rows-on r table_name snapshot on
                    ∙ ap (cached_rows pg r table_name snapshot)
                        (gotten ∙ ap (λ o. some (o, c)) miss)
                    ∙ runs,
                answered,
              )
          | inr (rows, hit) ↦ (
            done (some rows),
            r',
            read_rows-on r table_name snapshot on
                ∙ ap (cached_rows pg r table_name snapshot) (gotten ∙ ap (λ o. some (o, c)) hit),
            record {
              coherent = h';
              same = refl;
              numbers = refl;
              answer = inl (ap done (sym (h.kept table_name snapshot rows hit)));
            },
          )
        ]
  ]

  -- On a registry whose cache is valid and holds what the database answers, `GetPartitions` never
  -- meets a nil element of the cache. It answers what the database answers at the snapshot asked for,
  -- 0 for the current one, or an error of the database; it commits nothing and draws no number, and the cache again is
  -- valid and holds what the database answers.
  pub get_partitions-Answered :
      (r : PartitionRegistry) (table_name : Text) (snapshot_id : ℕ)
      → Coherent pg r
      → (a : Answer) × (r' : PartitionRegistry) × (get_partitions pg r table_name snapshot_id
          ≡ some (a, r'))
        × Answered pg r.db.committed r.db.sequences
            (rows_at pg table_name (wanted table_name snapshot_id r.db.committed) r.db.committed)
            a
            r'
  unfolding get_partitions read_resolved
  get_partitions-Answered r table_name snapshot_id h =
      let (n, outcome) = resolve_snapshot-wanted pg table_name snapshot_id r.db in
      let r' : PartitionRegistry = record r { db = asked n r.db } in
      let h' : Coherent pg r' = record { valid = h.valid; kept = h.kept } in
      elim outcome [
        | inl fine ↦
            let (a, r'', runs, answered) =
              read_rows-Answered r' table_name (wanted table_name snapshot_id r.db.committed) h' in
            (a, r'', ap (read_resolved pg r table_name) fine ∙ runs, answered)
        | inr (e, fault) ↦ (
          raised e,
          r',
          ap (read_resolved pg r table_name) fault,
          record { coherent = h'; same = refl; numbers = refl; answer = inr (e, refl) },
        )
      ]
