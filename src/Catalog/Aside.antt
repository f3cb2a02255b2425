-- ===== src/Catalog/Aside.antt =====
-- The operations on one table, seen from the others: what stays as it was. `others` are the names that
-- an operation does not concern, `before` the committed tables when it begins.
pub mod Statements
pub mod OnPartitions
pub mod Operations
pub mod Changes
use ice_core.Base.{Bool, true, false, if◌then◌else◌, ℕ, ◌≡◌, ◌≢◌, refl, sym, ◌∙◌, Text, arith, ◌≤◌}
use mathlib.Core.Path.{subst}
use ice_core.Base.Int.{ℤ, int_eq}
use ice_core.Db.Rows.{TableRow, Tables, Sequences, Db}
use ice_core.Db.Exec.{Pg, Sql, Outcome, done, raised, reading, on_tx, on_pool, begin_tx, commit_tx}
use ice_core.Db.Select.{live_row}
use ice_core.Db.Live.{UniqueIds, IdsBelow, IdsBelow-up, live_row_unique}
use ice_core.Db.Tables.{select_table_id}
use ice_core.Db.Partitions.{select_partitions}
use ice_core.Db.Triples.{Post, Triple, triple_on_tx, triple_on_pool, triple_begin, triple_commit}

-- Of each other name that had a live row, the row and what each snapshot shows; and the ids of all rows.
pub record Aside (pg : Pg) (others : Text → Type 0) (before : Tables) (s : Sequences) (t : Tables)
    : Type 0 where
  pub unique : UniqueIds t.tables
  pub below : IdsBelow s.table_seq t.tables
  pub same :
      (n : Text) (r : TableRow)
      → others n
      → live_row n before.tables ≡ done r
      → live_row n t.tables ≡ done r
  pub view :
      (n : Text) (r : TableRow) (snapshot : ℤ)
      → others n
      → live_row n before.tables ≡ done r
      → select_partitions pg r.table_id snapshot t ≡ select_partitions pg r.table_id snapshot before

module _ (pg : Pg) (others : Text → Type 0) (before : Tables) where
  -- A statement that keeps this.
  pub record Local {A : Type 0} (q : Sql A) : Type 0 where
    pub step :
        (m : ℕ) (t : Tables) (s : Sequences)
        → Aside pg others before s t
        → Aside pg others before (q m t s).2 (q m t s).1
    pub grows : (m : ℕ) (t : Tables) (s : Sequences) → s.table_seq ≤ (q m t s).2.table_seq

  Aside-up :
      (s s' : Sequences) (t : Tables)
      → s.table_seq ≤ s'.table_seq
      → Aside pg others before s t
      → Aside pg others before s' t
  Aside-up s s' t up h = record {
    unique = h.unique;
    below = IdsBelow-up s.table_seq s'.table_seq t.tables up h.below;
    same = h.same;
    view = h.view;
  }

  -- The values that a failing statement may have taken.
  grown :
      {A : Type 0} (q : Sql A)
      → Local q
      → (taken : Bool) (m : ℕ) (t : Tables) (s : Sequences)
      → s.table_seq ≤ (if taken then (q m t s).2 else s).table_seq
  grown q l true m t s = l.grows m t s
  grown q l false m t s = omega arith

  if_either : (taken : Bool) (s : Sequences) → (if taken then s else s) ≡ s
  if_either true s = refl
  if_either false s = refl

  -- An id that no other name has.
  abbrev pub Foreign : ℤ → Type 0
  Foreign id =
      (n : Text) (r : TableRow) → others n → live_row n before.tables ≡ done r → id ≢ r.table_id

  module _ (base : ℕ) where
    -- Outside of the transaction, in it, and after it.
    abbrev pub Idle : Db → Type 0
    Idle d = (d.committed ≡ before) × (base ≤ d.sequences.table_seq)

    pub record Open (d : Db) : Type 0 where
      pub idle : Idle d
      pub aside : Aside pg others before d.sequences d.pending

    abbrev pub Closed : Db → Type 0
    Closed d = Aside pg others before d.sequences d.committed

    Post-Open : {A : Type 0} (r : Outcome A) (d : Db) → Open d → Post (λ _. Open) Open (r, d)
    Post-Open (done a) d h = h
    Post-Open (raised e) d h = h

    -- A statement that fails, too, leaves the transaction as open as it was.
    pub triple-Local :
        {A : Type 0} (q : Sql A) → Local q → Triple Open (on_tx pg q) (λ _. Open) Open
    triple-Local q l =
        triple_on_tx pg q
          (λ d h. Post-Open (q d.begun d.pending d.sequences).0 _ (record {
            idle = (h.idle.0, omega (arith, h.idle.1, l.grows d.begun d.pending d.sequences));
            aside = l.step d.begun d.pending d.sequences h.aside;
          }))
          (λ d h c. record {
            idle = (h.idle.0, omega (arith, h.idle.1, grown q l c d.begun d.pending d.sequences));
            aside = Aside-up _ _ d.pending (grown q l c d.begun d.pending d.sequences) h.aside;
          })

    pub triple-Open :
        UniqueIds before.tables
        → IdsBelow base before.tables
        → Triple Idle (begin_tx pg) (λ _. Open) Idle
    triple-Open u b =
        triple_begin pg
          (λ d h. record {
            idle = h;
            aside = subst (Aside pg others before d.sequences) (sym h.0) (record {
              unique = u;
              below = IdsBelow-up base _ before.tables h.1 b;
              same = λ n r o e. e;
              view = λ n r snapshot o e. refl;
            });
          })
          (λ d h. h)

    pub triple_close : Triple Open (commit_tx pg) (λ _. Closed) Idle
    triple_close = triple_commit pg (λ d h. h.aside) (λ d h. h.idle)

    Post-id :
        (o : Outcome TableRow) (d : Db)
        → ((q : TableRow) → o ≡ done q → Foreign q.table_id)
        → Open d
        → Post
            (λ id d. Foreign id × Open d)
            Open
            (elim o [ done q ↦ done q.table_id | raised e ↦ raised e ], d)
    Post-id (done q) d f h = (f q refl, h)
    Post-id (raised e) d f h = h

    -- The id of a table whose name is not among the others is foreign to them.
    pub triple_id :
        (name : Text)
        → ((n : Text) → others n → n ≢ name)
        → Triple Open (on_tx pg (select_table_id pg name)) (λ id d. Foreign id × Open d) Open
    unfolding reading
    triple_id name apart =
        triple_on_tx pg _
          (λ d h.
            Post-id (live_row name d.pending.tables) _
              (λ q live n r o e same. apart n o (
                live_row_unique n name d.pending.tables r q h.aside.unique (h.aside.same n r o e)
                  live (sym same)))
              (record { idle = h.idle; aside = h.aside }))
          (λ d h c. record {
            idle = (h.idle.0, rw (if_either c d.sequences) h.idle.1);
            aside =
                subst (λ s. Aside pg others before s d.pending) (sym (if_either c d.sequences))
                  h.aside;
          })

    -- A statement on a connection of the pool.
    Post-Closed :
        {A : Type 0} (r : Outcome A) (d : Db) → Closed d → Post (λ _. Closed) Closed (r, d)
    Post-Closed (done a) d h = h
    Post-Closed (raised e) d h = h

    pub triple-Local_pool :
        {A : Type 0} (q : Sql A) → Local q → Triple Closed (on_pool pg q) (λ _. Closed) Closed
    triple-Local_pool q l =
        triple_on_pool pg q
          (λ d h.
            Post-Closed (q d.statements d.committed d.sequences).0 _
              (l.step d.statements d.committed d.sequences h))
          (λ d h c. Aside-up _ _ d.committed (grown q l c d.statements d.committed d.sequences) h)
