-- ===== src/Server/Sound/Changes.antt =====
-- The handlers that change tables: while the cache is not yet emptied of a table, it still agrees with the
-- database on the others.
use ice_core.Base.{
  ℕ, ◌≡◌, ◌≢◌, refl, sym, ap, ◌∙◌, Bool, true, false, Option, none, some, List, Text, codes, ◌++◌,
  text_eq, arith, inl, inr, if◌then◌else◌,
}
use mathlib.Core.Path.{subst}
use ice_core.Base.Int.{to_int64}
use ice_core.Base.Dict.{Dict, lookup, Distinct}
use ice_core.Base.Range.{IsOrder}
use ice_core.Db.Rows.{PartitionRow, Tables, Sequences, Db}
use ice_core.Db.Exec.{Pg, Exec, Outcome, done, raised}
use ice_core.Db.Select.{live_row-cases}
use ice_core.Db.Live.{UniqueIds, IdsBelow, IdsBelow-up}
use ice_core.Db.Triples.{Post, Triple}
use ice_core.Cache.Order.{view}
use ice_core.Cache.Ranges.{invalidate_if-view}
use ice_core.Catalog.Registry.{make_cache_key, has_prefix, invalidate_table_cache}
use ice_core.Catalog.Registry.Answers.{rows_at}
use ice_core.Catalog.Registry.Emptied.{lookup-keep, has_prefix-make_cache_key}
use ice_core.Catalog.Aside.{Aside, Idle, Closed}
use ice_core.Server.{
  Env, MetadataServer, with_db, attempt, attempted, OperationResponse, invalidate,
}
use ice_core.Server.Sound.{SoundFor, IsSound, Runs, After}

-- The order in which Go ranges over the cache is one of its entries.
abbrev pub Ranges : Env → Type 0
Ranges env = (items : Dict Text ℕ) → Distinct items → IsOrder items (env.range_items items)

rows_at-Aside :
    (pg : Pg) (others : Text → Type 0) (before : Tables) (s : Sequences) (t : Tables) (n : Text)
    (snapshot : ℕ) (rows : List PartitionRow)
    → Aside pg others before s t
    → others n
    → rows_at pg n snapshot before ≡ some rows
    → rows_at pg n snapshot t ≡ some rows
unfolding rows_at
rows_at-Aside pg others before s t n snapshot rows h o e = elim (live_row-cases n before.tables) [
  | inl (r, live) ↦
      ground (arith, live, e, h.same n r o live, h.view n r (to_int64 snapshot) o live)
  | inr missing ↦ absurd (ground (arith, missing, e))
]

-- After the operation, or after its failure, the cache agrees on the others.
pub Aside-SoundFor :
    (pg : Pg) (others : Text → Type 0) (s : MetadataServer) (d : Db)
    → IsSound pg s
    → Aside pg others s.partitions.db.committed d.sequences d.committed
    → SoundFor pg others (with_db d s)
Aside-SoundFor pg others s d h a = record {
  valid = h.valid;
  kept = λ n snapshot rows o l.
      rows_at-Aside pg others _ _ _ n snapshot rows a o (h.kept n snapshot rows tt l);
  unique = a.unique;
  below = a.below;
}

-- A transaction that did not commit changes nothing that counts.
pub idle-IsSound :
    (pg : Pg) (others : Text → Type 0) (s : MetadataServer) (d : Db)
    → IsSound pg s
    → Idle pg others s.partitions.db.committed s.partitions.db.sequences.table_seq d
    → IsSound pg (with_db d s)
idle-IsSound pg others s d h i = record {
  valid = h.valid;
  kept = λ n snapshot rows o l. rw i.0 (h.kept n snapshot rows tt l);
  unique = rw i.0 h.unique;
  below = rw i.0 (IdsBelow-up _ _ s.partitions.db.committed.tables i.1 h.below);
}

-- What is left to be done after an operation: nothing, if it failed.
pub record Attempted (pg : Pg) (others : Text → Type 0) (resp : OperationResponse)
    (s : MetadataServer) : Type 0 where
  pub others_sound : SoundFor pg others s
  pub sound : resp.success ≡ false → IsSound pg s

fewer :
    (pg : Pg) (others : Text → Type 0) (s : MetadataServer) → IsSound pg s → SoundFor pg others s
fewer pg others s h = record {
  valid = h.valid;
  kept = λ n snapshot rows o l. h.kept n snapshot rows tt l;
  unique = h.unique;
  below = h.below;
}

module _ (pg : Pg) (others : Text → Type 0) where
  After-attempted :
      (s : MetadataServer) (o : Outcome (Unit {0})) (d : Db)
      → IsSound pg s
      → Post
          (λ _. Closed pg others s.partitions.db.committed s.partitions.db.sequences.table_seq)
          (Idle pg others s.partitions.db.committed s.partitions.db.sequences.table_seq)
          (o, d)
      → After (Attempted pg others) (IsSound pg) (attempted pg s (o, d))
  After-attempted s (done a) d h p = record {
    others_sound = Aside-SoundFor pg others s d h p;
    sound = λ e. absurd (ground (arith, e));
  }
  After-attempted s (raised e) d h p =
      let back = idle-IsSound pg others s d h p in
      record { others_sound = fewer pg others (with_db d s) back; sound = λ _. back }

  pub runs_attempt :
      (m : Exec (Unit {0}))
      → ((before : Tables) (base : ℕ)
          → UniqueIds before.tables
          → IdsBelow base before.tables
          → Triple
              (Idle pg others before base)
              m
              (λ _. Closed pg others before base)
              (Idle pg others before base))
      → Runs (IsSound pg) (attempt pg m) (Attempted pg others) (IsSound pg)
  unfolding attempt
  runs_attempt m t = record {
    at = λ s h. After-attempted s (m s.partitions.db).0 (m s.partitions.db).1 h (
        (t s.partitions.db.committed s.partitions.db.sequences.table_seq h.unique h.below).at
          s.partitions.db (refl, omega arith));
  }

  After-Closed :
      (s : MetadataServer) (o : Outcome (Unit {0})) (d : Db)
      → IsSound pg s
      → Post
          (λ _. Closed pg others s.partitions.db.committed s.partitions.db.sequences.table_seq)
          (Closed pg others s.partitions.db.committed s.partitions.db.sequences.table_seq)
          (o, d)
      → After (λ _. SoundFor pg others) (IsSound pg) (attempted pg s (o, d))
  After-Closed s (done a) d h p = Aside-SoundFor pg others s d h p
  After-Closed s (raised e) d h p = Aside-SoundFor pg others s d h p

  -- The same for an operation that is one statement of the pool.
  pub runs_attempt_pool :
      (m : Exec (Unit {0}))
      → ((before : Tables) (base : ℕ)
          → UniqueIds before.tables
          → IdsBelow base before.tables
          → Triple
              (Closed pg others before base)
              m
              (λ _. Closed pg others before base)
              (Closed pg others before base))
      → Runs (IsSound pg) (attempt pg m) (λ _. SoundFor pg others) (IsSound pg)
  unfolding attempt
  runs_attempt_pool m t = record {
    at = λ s h. After-Closed s (m s.partitions.db).0 (m s.partitions.db).1 h (
        (t s.partitions.db.committed s.partitions.db.sequences.table_seq h.unique h.below).at
          s.partitions.db
          (record {
            unique = h.unique;
            below = h.below;
            same = λ n r o e. e;
            view = λ n r v o e. refl;
          }));
  }

unless_there :
    {A : Type 0} (c : Bool) (o : Option A) (a : A)
    → (if c then none else o) ≡ some a
    → (c ≡ false) × (o ≡ some a)
unless_there true o a h = absurd (ground (arith, h))
unless_there false o a h = (refl, h)

differ : true ≡ false → ⊥
differ e = ground (arith, e)

-- The cache emptied of a table agrees on that table too.
pub emptied-SoundFor :
    (env : Env) (names more : Text → Type 0) (name : Text) (s : MetadataServer)
    → Ranges env
    → ((n : Text) → more n → n ≢ name → names n)
    → SoundFor env.pg names s
    → SoundFor env.pg more (record s {
      partitions =
          (invalidate_table_cache s.partitions name (env.range_items s.partitions.cache.items)).1;
    })
unfolding invalidate_table_cache
emptied-SoundFor env names more name s ranges split h =
    let (valid, shows, counted, cap) =
      invalidate_if-view (has_prefix (name ++ codes ":")) (env.range_items s.partitions.cache.items)
        s.partitions.cache h.valid (ranges s.partitions.cache.items h.valid.distinct) in
    record {
      valid = valid;
      kept = λ n snapshot rows o l.
          let (spared, there) =
            unless_there (has_prefix (name ++ codes ":") (make_cache_key n snapshot)) _ rows (
              sym (
                lookup-keep (has_prefix (name ++ codes ":")) (make_cache_key n snapshot)
                  (view s.partitions.cache))
              ∙ ap (lookup (make_cache_key n snapshot)) (sym shows)
              ∙ l) in
          h.kept n snapshot rows
            (split n o (λ same. differ (
              sym (
                subst (λ m. has_prefix (m ++ codes ":") (make_cache_key n snapshot) ≡ true) same
                  (has_prefix-make_cache_key n snapshot))
              ∙ spared)))
            there;
      unique = h.unique;
      below = h.below;
    }

pub runs_invalidate :
    (env : Env) (names more : Text → Type 0) (name : Text)
    → Ranges env
    → ((n : Text) → more n → n ≢ name → names n)
    → Runs
        (SoundFor env.pg names)
        (invalidate env name)
        (λ _. SoundFor env.pg more)
        (IsSound env.pg)
unfolding invalidate
runs_invalidate env names more name ranges split = record {
  at = λ s h. emptied-SoundFor env names more name s ranges split h;
}
