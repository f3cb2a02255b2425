-- ===== src/Server/Sound.antt =====
-- The state between two requests: the cache agrees with the database. What holds after a handler is
-- said as for the calls of the database: of a response and the state, or of the state after a status.
pub mod Reads
pub mod Changes
pub mod OnTables
pub mod OnData
pub mod Served
use ice_core.Base.{
  ℕ, ◌≡◌, ◌≢◌, refl, ◌∙◌, Bool, true, false, Option, none, some, List, Text, ◌++◌, ◌==◌, text_eq,
  nat_eq, arith, ◌⊎◌, if◌then◌else◌, ◌≤◌,
}
use ice_core.Base.Dict.{lookup}
use ice_core.Db.Rows.{PartitionRow, Db}
use ice_core.Db.Exec.{Pg, Exec, Outcome, done, raised}
use ice_core.Db.Live.{UniqueIds, IdsBelow}
use ice_core.Db.Partitions.{select_partitions}
use ice_core.Db.Triples.{Post, Triple}
use ice_core.Cache.Shape.{IsValid}
use ice_core.Cache.Order.{view}
use ice_core.Catalog.Registry.{make_cache_key}
use ice_core.Catalog.Registry.Answers.{rows_at}
use ice_core.Transaction.{MvccManager}
use ice_core.Server.{
  MetadataServer, Reply, Handler, response, status, Code, answer, refuse, ◌>>=◌, ◌>>◌, demand,
  continue, query, queried, with_db,
}

-- No two tables have one id, an id to come is new, and what the cache holds of these names is what the
-- database answers.
pub record SoundFor (pg : Pg) (names : Text → Type 0) (s : MetadataServer) : Type 0 where
  pub valid : IsValid s.partitions.cache
  pub kept :
      (n : Text) (snapshot : ℕ) (rows : List PartitionRow)
      → names n
      → lookup (make_cache_key n snapshot) (view s.partitions.cache) ≡ some rows
      → rows_at pg n snapshot s.partitions.db.committed ≡ some rows
  pub unique : UniqueIds s.partitions.db.committed.tables
  pub below : IdsBelow s.partitions.db.sequences.table_seq s.partitions.db.committed.tables

abbrev pub AllNames : Text → Type 0
AllNames n = Unit

abbrev pub IsSound : Pg → MetadataServer → Type 0
IsSound pg = SoundFor pg AllNames

module _ {A : Type 0} where
  -- After a run; a nil dereference is none.
  abbrev pub After :
      (A → MetadataServer → Type 0)
      → (MetadataServer → Type 0)
      → Option (Reply A × MetadataServer)
      → Type 0
  After Q E none = ⊥
  After Q E (some (response a, s)) = Q a s
  After Q E (some (status code message, s)) = E s

  pub record Runs (P : MetadataServer → Type 0) (h : Handler A) (Q : A → MetadataServer → Type 0)
      (E : MetadataServer → Type 0) : Type 0 where
    pub at : (s : MetadataServer) → P s → After Q E (h s)

  pub runs_answer :
      {P E : MetadataServer → Type 0} {Q : A → MetadataServer → Type 0} (a : A)
      → ((s : MetadataServer) → P s → Q a s)
      → Runs P (answer a) Q E
  unfolding answer
  runs_answer a h = record { at = h }

  pub runs_refuse :
      {P E : MetadataServer → Type 0} {Q : A → MetadataServer → Type 0} (code : Code)
      (message : Text)
      → ((s : MetadataServer) → P s → E s)
      → Runs P (refuse code message) Q E
  unfolding refuse
  runs_refuse code message h = record { at = h }

pub runs_to :
    {A : Type 0} {P E : MetadataServer → Type 0} {Q R : A → MetadataServer → Type 0} {h : Handler A}
    → Runs P h Q E
    → ((a : A) (s : MetadataServer) → Q a s → R a s)
    → Runs P h R E
runs_to {E} {Q} {R} {h} r k = record { at = λ s p. weaken (h s) (r.at s p) }
  where
    weaken : (o : Option (Reply _ × MetadataServer)) → After Q E o → After R E o
    weaken none q = q
    weaken (some (response a, s)) q = k a s q
    weaken (some (status code message, s)) q = q

pub runs_from :
    {A : Type 0} {P P' E : MetadataServer → Type 0} {Q : A → MetadataServer → Type 0}
    {h : Handler A}
    → ((s : MetadataServer) → P s → P' s)
    → Runs P' h Q E
    → Runs P h Q E
runs_from k r = record { at = λ s p. r.at s (k s p) }

pub runs_to_status :
    {A : Type 0} {P E F : MetadataServer → Type 0} {Q : A → MetadataServer → Type 0} {h : Handler A}
    → Runs P h Q E
    → ((s : MetadataServer) → E s → F s)
    → Runs P h Q F
runs_to_status {E} {F} {Q} {h} r k = record { at = λ s p. weaken (h s) (r.at s p) }
  where
    weaken : (o : Option (Reply _ × MetadataServer)) → After Q E o → After Q F o
    weaken none q = q
    weaken (some (response a, s)) q = q
    weaken (some (status code message, s)) q = k s q

After-continue :
    {A B : Type 0} (Q : A → MetadataServer → Type 0) (R : B → MetadataServer → Type 0)
    (E : MetadataServer → Type 0) (f : A → Handler B) (o : Option (Reply A × MetadataServer))
    → After Q E o
    → ((a : A) → Runs (Q a) (f a) R E)
    → After R E (continue f o)
After-continue Q R E f none h k = h
After-continue Q R E f (some (response a, s)) h k = (k a).at s h
After-continue Q R E f (some (status code message, s)) h k = h

pub runs_bind :
    {A B : Type 0} {P E : MetadataServer → Type 0} {Q : A → MetadataServer → Type 0}
    {R : B → MetadataServer → Type 0} {h : Handler A} {f : A → Handler B}
    → Runs P h Q E
    → ((a : A) → Runs (Q a) (f a) R E)
    → Runs P (h >>= f) R E
unfolding ◌>>=◌
runs_bind {E} {Q} {R} {h} {f} r k = record { at = λ s p. After-continue Q R E f (h s) (r.at s p) k }

pub runs_then :
    {A B : Type 0} {P E : MetadataServer → Type 0} {Q : A → MetadataServer → Type 0}
    {R : B → MetadataServer → Type 0} {h : Handler A} {k : Handler B}
    → Runs P h Q E
    → ((a : A) → Runs (Q a) k R E)
    → Runs P (h >> k) R E
unfolding ◌>>◌
runs_then h k = runs_bind h k

pub runs_demand :
    {P E : MetadataServer → Type 0} (c : Bool) (code : Code) (message : Text)
    → ((s : MetadataServer) → P s → E s)
    → Runs P (demand c code message) (λ _. P) E
unfolding demand
runs_demand true code message h = runs_answer tt (λ s p. p)
runs_demand false code message h = runs_refuse code message h

module _ (pg : Pg) where
  After-queried :
      {A : Type 0} (s : MetadataServer) (Q : A → Db → Type 0) (E : Db → Type 0)
      (R : A → MetadataServer → Type 0) (F : MetadataServer → Type 0) (o : Outcome A) (d : Db)
      → Post Q E (o, d)
      → ((a : A) → Q a d → R a (with_db d s))
      → (E d → F (with_db d s))
      → After R F (queried pg s (o, d))
  After-queried s Q E R F (done a) d h k l = k a h
  After-queried s Q E R F (raised e) d h k l = l h

  -- A call of the database that leaves the rows of `tables` and of `partitions`.
  abbrev pub Still : Db → Db → Type 0
  Still d0 d =
      (d.committed.tables ≡ d0.committed.tables)
      × (d.committed.partitions ≡ d0.committed.partitions)
      × (d.sequences.table_seq ≡ d0.sequences.table_seq)

  abbrev pub Quiet : {A : Type 0} → Exec A → Type 0
  Quiet m = (d0 : Db) → Triple (Still d0) m (λ _. Still d0) (Still d0)

  pub Still-IsSound :
      (s : MetadataServer) (d : Db)
      → Still s.partitions.db d
      → IsSound pg s
      → IsSound pg (with_db d s)
  unfolding rows_at select_partitions
  Still-IsSound s d still h = record {
    valid = h.valid;
    kept = λ n snapshot rows o l. rw (still.0, still.1) (h.kept n snapshot rows o l);
    unique = rw still.0 h.unique;
    below = rw (still.0, still.2) h.below;
  }

  pub runs_query :
      {A : Type 0} (m : Exec A)
      → Quiet m
      → Runs (IsSound pg) (query pg m) (λ _. IsSound pg) (IsSound pg)
  unfolding query
  runs_query m quiet = record {
    at = λ s h.
        After-queried s (λ _. Still s.partitions.db) (Still s.partitions.db) (λ _. IsSound pg)
          (IsSound pg) (m s.partitions.db).0 (m s.partitions.db).1
          ((quiet s.partitions.db).at s.partitions.db (refl, refl, refl))
          (λ a still. Still-IsSound s (m s.partitions.db).1 still h)
          (λ still. Still-IsSound s (m s.partitions.db).1 still h);
  }

-- A condition on the transactions in memory and the database.
abbrev pub On : (MvccManager → Db → Type 0) → MetadataServer → Type 0
On P s = P s.mvcc s.partitions.db

pub runs_call :
    {A : Type 0} {P E : MvccManager → Db → Type 0} {Q : A → MvccManager → Db → Type 0} (pg : Pg)
    (m : Exec A)
    → ((v : MvccManager) → Triple (P v) m (λ a. Q a v) (E v))
    → Runs (On P) (query pg m) (λ a. On (Q a)) (On E)
unfolding query
runs_call {P} {E} {Q} pg m t = record {
  at = λ s h.
      After-queried pg s (λ a. Q a s.mvcc) (E s.mvcc) (λ a. On (Q a)) (On E) (m s.partitions.db).0
        (m s.partitions.db).1 ((t s.mvcc).at s.partitions.db h) (λ a q. q) (λ e. e);
}
