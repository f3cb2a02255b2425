-- ===== src/Db/Triples.antt =====
-- Reasoning about `Exec`: what holds after a call, on success of its value and the database, on
-- failure of the database.
use ice_core.Base.{suc, ◌≡◌, refl, Bool, true, false, Option, none, some, Text, if◌then◌else◌}
use ice_core.Db.Rows.{Tables, Sequences, Db}
use ice_core.Db.Exec.{
  Pg, Exec, Sql, Outcome, DbError, done, raised, failed, no_rows, pure, throw, ◌>>=◌, ◌>>◌,
  unless_found, reading, refused, on_pool, on_tx, or_message, require, begin_tx, commit_tx,
  error_text,
}

module _ {A : Type 0} where
  abbrev pub Post : (A → Db → Type 0) → (Db → Type 0) → Outcome A × Db → Type 0
  Post Q E (done a, d) = Q a d
  Post Q E (raised e, d) = E d

  -- From P the call ends in Q with its value, or in E with an error.
  pub record Triple (P : Db → Type 0) (m : Exec A) (Q : A → Db → Type 0) (E : Db → Type 0)
      : Type 0 where
    pub at : (d : Db) → P d → Post Q E (m d)

  pub triple_pure :
      {P E : Db → Type 0} {Q : A → Db → Type 0} (a : A)
      → ((d : Db) → P d → Q a d)
      → Triple P (pure a) Q E
  unfolding pure
  triple_pure a h = record { at = h }

  pub triple_throw :
      {P E : Db → Type 0} {Q : A → Db → Type 0} (e : DbError)
      → ((d : Db) → P d → E d)
      → Triple P (throw e) Q E
  unfolding throw
  triple_throw e h = record { at = h }

Post-bind :
    {A B : Type 0} (Q : A → Db → Type 0) (R : B → Db → Type 0) (E : Db → Type 0) (f : A → Exec B)
    (r : Outcome A) (d : Db)
    → Post Q E (r, d)
    → ((a : A) → Q a d → Post R E (f a d))
    → Post R E (elim r [ done a ↦ f a d | raised e ↦ (raised e, d) ])
Post-bind Q R E f (done a) d h k = k a h
Post-bind Q R E f (raised e) d h k = h

pub triple_bind :
    {A B : Type 0} {P E : Db → Type 0} {Q : A → Db → Type 0} {R : B → Db → Type 0} {m : Exec A}
    {f : A → Exec B}
    → Triple P m Q E
    → ((a : A) → Triple (Q a) (f a) R E)
    → Triple P (m >>= f) R E
unfolding ◌>>=◌
triple_bind {A} {B} {P} {E} {Q} {R} {m} {f} h k = record {
  at = λ d p. Post-bind Q R E f (m d).0 (m d).1 (h.at d p) (λ a q. (k a).at (m d).1 q);
}

Post-message :
    {A : Type 0} (pg : Pg) (g : Text → Text) (Q : A → Db → Type 0) (E : Db → Type 0) (r : Outcome A)
    (d : Db)
    → Post Q E (r, d)
    → Post Q E
        (elim r [ done a ↦ (done a, d) | raised e ↦ (raised (failed (g (error_text pg e))), d) ])
Post-message pg g Q E (done a) d h = h
Post-message pg g Q E (raised e) d h = h

pub triple_message :
    {A : Type 0} {P E : Db → Type 0} {Q : A → Db → Type 0} {m : Exec A} (pg : Pg) (g : Text → Text)
    → Triple P m Q E
    → Triple P (or_message pg g m) Q E
unfolding or_message
triple_message {E} {Q} {m} pg g h = record {
  at = λ d p. Post-message pg g Q E (m d).0 (m d).1 (h.at d p);
}

Post-unless :
    {A : Type 0} (a : A) (Q : A → Db → Type 0) (E : Db → Type 0) (r : Outcome A) (d : Db)
    → Post Q E (r, d)
    → (E d → Q a d)
    → Post Q E (elim r [
      | done b ↦ (done b, d)
      | raised e ↦ elim e [ no_rows ↦ (done a, d) | failed t ↦ (raised (failed t), d) ]
    ])
Post-unless a Q E (done b) d h k = h
Post-unless a Q E (raised no_rows) d h k = k h
Post-unless a Q E (raised (failed t)) d h k = h

pub triple_unless :
    {A : Type 0} {P E : Db → Type 0} {Q : A → Db → Type 0} {m : Exec A} (a : A)
    → Triple P m Q E
    → ((d : Db) → E d → Q a d)
    → Triple P (unless_found a m) Q E
unfolding unless_found
triple_unless {E} {Q} {m} a h k = record {
  at = λ d p. Post-unless a Q E (m d).0 (m d).1 (h.at d p) (k (m d).1);
}

pub triple_require :
    {P E : Db → Type 0} {Q : Unit {0} → Db → Type 0} (b : Bool) (message : Text)
    → ((d : Db) → b ≡ true → P d → Q tt d)
    → ((d : Db) → P d → E d)
    → Triple P (require b message) Q E
unfolding require
triple_require true message h k = record { at = λ d p. h d refl p }
triple_require false message h k = record { at = λ d p. k d p }

Post-fault :
    {A : Type 0} (Q : A → Db → Type 0) (E : Db → Type 0) (d : Db) (r : Outcome A × Db)
    (o : Option Text)
    → Post Q E r
    → E (record d { statements = suc d.statements })
    → Post Q E (elim o [
      | some e ↦ (raised (failed e), record d { statements = suc d.statements })
      | none ↦ r
    ])
Post-fault Q E d r none h k = h
Post-fault Q E d r (some e) h k = k

Post-statement :
    {A : Type 0} (pg : Pg) (Q : A → Db → Type 0) (E : Db → Type 0) (d : Db) (c : Bool)
    (s : Sequences) (r : Outcome A × Db) (o : Option Text)
    → Post Q E r
    → E (record d { sequences = if c then s else d.sequences; statements = suc d.statements })
    → Post Q E (elim o [ some e ↦ refused pg e c s d | none ↦ r ])
Post-statement pg Q E d c s r none h k = h
Post-statement pg Q E d c s r (some e) h k = k

module _ {A : Type 0} where
  -- What a statement does to the tables it sees, after it was sent.
  abbrev pub sent_tx : Db → Outcome A × Tables × Sequences → Outcome A × Db
  sent_tx d (r, t, s) = (r, record d { pending = t; sequences = s; statements = suc d.statements })

  pub triple_on_tx :
      {P E : Db → Type 0} {Q : A → Db → Type 0} (pg : Pg) (q : Sql A)
      → ((d : Db) → P d → Post Q E (sent_tx d (q d.begun d.pending d.sequences)))
      → ((d : Db)
          → P d
          → (taken : Bool)
          → E (record d {
            sequences = if taken then (q d.begun d.pending d.sequences).2 else d.sequences;
            statements = suc d.statements;
          }))
      → Triple P (on_tx pg q) Q E
  unfolding on_tx
  triple_on_tx {P} {E} {Q} pg q h k = record {
    at = λ d p.
        Post-statement pg Q E d (pg.consumed d.statements) _ _ (pg.fault d.statements) (h d p)
          (k d p (pg.consumed d.statements));
  }

  abbrev pub sent_pool : Db → Outcome A × Tables × Sequences → Outcome A × Db
  sent_pool d (r, t, s) =
      (r, record d { committed = t; sequences = s; statements = suc d.statements })

  pub triple_on_pool :
      {P E : Db → Type 0} {Q : A → Db → Type 0} (pg : Pg) (q : Sql A)
      → ((d : Db) → P d → Post Q E (sent_pool d (q d.statements d.committed d.sequences)))
      → ((d : Db)
          → P d
          → (taken : Bool)
          → E (record d {
            sequences = if taken then (q d.statements d.committed d.sequences).2 else d.sequences;
            statements = suc d.statements;
          }))
      → Triple P (on_pool pg q) Q E
  unfolding on_pool
  triple_on_pool {P} {E} {Q} pg q h k = record {
    at = λ d p.
        Post-statement pg Q E d (pg.consumed d.statements) _ _ (pg.fault d.statements) (h d p)
          (k d p (pg.consumed d.statements));
  }

pub triple_begin :
    {P E : Db → Type 0} {Q : Unit {0} → Db → Type 0} (pg : Pg)
    → ((d : Db)
        → P d
        → Q tt (record d {
          pending = d.committed;
          begun = d.statements;
          statements = suc d.statements;
        }))
    → ((d : Db) → P d → E (record d { statements = suc d.statements }))
    → Triple P (begin_tx pg) Q E
unfolding begin_tx
triple_begin {E} {Q} pg h k = record {
  at = λ d p. Post-fault Q E d _ (pg.fault d.statements) (h d p) (k d p);
}

pub triple_commit :
    {P E : Db → Type 0} {Q : Unit {0} → Db → Type 0} (pg : Pg)
    → ((d : Db) → P d → Q tt (record d { committed = d.pending; statements = suc d.statements }))
    → ((d : Db) → P d → E (record d { statements = suc d.statements }))
    → Triple P (commit_tx pg) Q E
unfolding commit_tx
triple_commit {E} {Q} pg h k = record {
  at = λ d p. Post-fault Q E d _ (pg.fault d.statements) (h d p) (k d p);
}

-- A step whose value is not used.
pub triple_then :
    {A B : Type 0} {P E : Db → Type 0} {Q : A → Db → Type 0} {R : B → Db → Type 0} {m : Exec A}
    {k : Exec B}
    → Triple P m Q E
    → ((a : A) → Triple (Q a) k R E)
    → Triple P (m >> k) R E
unfolding ◌>>◌
triple_then h k = triple_bind h k

-- An error or a value may be promised less of.
pub triple_weaken :
    {A : Type 0} {P E E' : Db → Type 0} {Q : A → Db → Type 0} {m : Exec A}
    → Triple P m Q E
    → ((d : Db) → E d → E' d)
    → Triple P m Q E'
triple_weaken {A} {E} {E'} {Q} {m} h k = record { at = λ d p. weaken (m d).0 (m d).1 (h.at d p) }
  where
    weaken : (r : Outcome A) (d : Db) → Post Q E (r, d) → Post Q E' (r, d)
    weaken (done a) d q = q
    weaken (raised e) d q = k d q

-- A fact that does not depend on the database.
pub triple_given :
    {A : Type 0} {X : Type 0} {P E : Db → Type 0} {Q : A → Db → Type 0} {m : Exec A}
    → (X → Triple P m Q E)
    → Triple (λ d. X × P d) m Q E
triple_given h = record { at = λ d p. (h p.0).at d p.1 }

pub triple_to :
    {A : Type 0} {P E : Db → Type 0} {Q R : A → Db → Type 0} {m : Exec A}
    → Triple P m Q E
    → ((a : A) (d : Db) → Q a d → R a d)
    → Triple P m R E
triple_to {A} {P} {E} {Q} {R} {m} h k = record { at = λ d p. weaken (m d).0 (m d).1 (h.at d p) }
  where
    weaken : (r : Outcome A) (d : Db) → Post Q E (r, d) → Post R E (r, d)
    weaken (done a) d q = k a d q
    weaken (raised e) d q = q

module _ {A : Type 0} {P : Db → Type 0} (pg : Pg) (f : Tables → Outcome A)
    (next : (d : Db) → P d → P (record d { statements = suc d.statements })) where
  Post-same : (r : Outcome A) (d : Db) → P d → Post (λ _. P) P (r, d)
  Post-same (done a) d p = p
  Post-same (raised e) d p = p

  either :
      (d : Db)
      → P d
      → (taken : Bool)
      → P (record d {
        sequences = if taken then d.sequences else d.sequences;
        statements = suc d.statements;
      })
  either d p true = next d p
  either d p false = next d p

  -- A query keeps whatever does not count the statements.
  pub triple_read_tx : Triple P (on_tx pg (reading f)) (λ _. P) P
  unfolding reading
  triple_read_tx = triple_on_tx pg (reading f) (λ d p. Post-same (f d.pending) _ (next d p)) either

  pub triple_read_pool : Triple P (on_pool pg (reading f)) (λ _. P) P
  unfolding reading
  triple_read_pool =
      triple_on_pool pg (reading f) (λ d p. Post-same (f d.committed) _ (next d p)) either
