-- ===== src/Db/Exec.antt =====
-- A call of the client: its outcome, with `pgx.ErrNoRows` told apart, and the database after it.
-- Any statement may fail, as the parameter says; one that fails changes no table.
use ice_core.Base.{
  Bool, true, false, ℕ, suc, Option, none, some, List, Text, Result, ok, err, if◌then◌else◌,
}
use ice_core.Db.Rows.{ColumnStats, Tables, Sequences, Db}

pub data DbError : Type 0 where
  no_rows : DbError
  failed : Text → DbError

pub data Outcome (A : Type 0) : Type 0 where
  done : A → Outcome A
  raised : DbError → Outcome A

-- PostgreSQL and the driver: the error of the n-th statement, if it fails, and whether it had taken a
-- value of its sequence by then; `now()` in a transaction that began with the n-th statement; the cast
-- of a text to JSONB and back; the text of a time; encoding/json at `[]ColumnStats` and at the
-- summaries of a manifest, one `partition_key` each; and the texts
-- of the errors.
pub record Pg : Type 0 where
  pub fault : ℕ → Option Text
  pub consumed : ℕ → Bool
  pub now : ℕ → ℕ
  pub jsonb : Text → Result Text
  pub show_time : ℕ → Text
  pub marshal_stats : List ColumnStats → Option Text
  pub unmarshal_stats : Text → Option (List ColumnStats)
  pub marshal_summaries : List Text → Text
  pub unique_violation : Text
  pub foreign_key_violation : Text
  pub negative_offset : Text
  pub no_rows_text : Text

abbrev pub Exec : Type 0 → Type 0
Exec A = Db → Outcome A × Db

-- One SQL statement over the tables that it sees. The number is that of the statement its transaction
-- began with, which is the statement itself on the pool.
abbrev pub Sql : Type 0 → Type 0
Sql A = ℕ → Tables → Sequences → Outcome A × Tables × Sequences

module _ {A : Type 0} where
  unfoldable pub pure : A → Exec A
  pure a d = (done a, d)

  unfoldable pub throw : DbError → Exec A
  throw e d = (raised e, d)

infixl 5 ◌>>=◌ ◌>>◌
unfoldable pub ◌>>=◌ : {A B : Type 0} → Exec A → (A → Exec B) → Exec B
◌>>=◌ m f d = let (r, d') = m d in elim r [ done a ↦ f a d' | raised e ↦ (raised e, d') ]

unfoldable pub ◌>>◌ : {A B : Type 0} → Exec A → Exec B → Exec B
unfolding ◌>>=◌
m >> k = m >>= λ _. k

-- `if errors.Is(err, pgx.ErrNoRows) { return a, nil }`
unfoldable pub unless_found : {A : Type 0} → A → Exec A → Exec A
unless_found a m d =
    let (r, d') = m d in
    elim r [
      | done b ↦ (done b, d')
      | raised e ↦ elim e [ no_rows ↦ (done a, d') | failed t ↦ (raised (failed t), d') ]
    ]

-- A query reads, and leaves the tables and the sequences as they are.
unfoldable pub reading : {A : Type 0} → (Tables → Outcome A) → Sql A
reading f n t s = (f t, t, s)

module _ (pg : Pg) {A : Type 0} where
  -- A statement that fails writes no row, but the values that it has taken of sequences stay taken.
  abbrev pub refused : Text → Bool → Sequences → Db → Outcome A × Db
  refused e taken s d = (
    raised (failed e),
    record d { sequences = if taken then s else d.sequences; statements = suc d.statements },
  )

  -- On a connection of the pool: the statement commits by itself.
  unfoldable pub on_pool : Sql A → Exec A
  on_pool q d =
      let (r, t, s) = q d.statements d.committed d.sequences in
      elim (pg.fault d.statements) [
        | some e ↦ refused e (pg.consumed d.statements) s d
        | none ↦ (r, record d { committed = t; sequences = s; statements = suc d.statements })
      ]

  -- In the open transaction.
  unfoldable pub on_tx : Sql A → Exec A
  on_tx q d =
      let (r, t, s) = q d.begun d.pending d.sequences in
      elim (pg.fault d.statements) [
        | some e ↦ refused e (pg.consumed d.statements) s d
        | none ↦ (r, record d { pending = t; sequences = s; statements = suc d.statements })
      ]

module _ (pg : Pg) where
  -- `Pool.BeginTx`
  unfoldable pub begin_tx : Exec (Unit {0})
  begin_tx d = elim (pg.fault d.statements) [
    | some e ↦ (raised (failed e), record d { statements = suc d.statements })
    | none ↦ (
      done tt,
      record d { pending = d.committed; begun = d.statements; statements = suc d.statements },
    )
  ]

  -- `tx.Commit`
  unfoldable pub commit_tx : Exec (Unit {0})
  commit_tx d = elim (pg.fault d.statements) [
    | some e ↦ (raised (failed e), record d { statements = suc d.statements })
    | none ↦ (done tt, record d { committed = d.pending; statements = suc d.statements })
  ]

-- A parameter cast to JSONB: a text that is no JSON fails the statement.
unfoldable pub casting : {A : Type 0} → Pg → Text → (Text → Sql A) → Sql A
casting pg raw f n t s = elim (pg.jsonb raw) [
  | err e ↦ (raised (failed e), t, s)
  | ok json ↦ f json n t s
]

-- `err.Error()`
abbrev pub error_text : Pg → DbError → Text
error_text pg no_rows = pg.no_rows_text
error_text pg (failed t) = t

-- An error returned with another text: `"…" + err.Error()`.
unfoldable pub or_message : {A : Type 0} → Pg → (Text → Text) → Exec A → Exec A
or_message pg f m d =
    let (r, d') = m d in
    elim r [ done a ↦ (done a, d') | raised e ↦ (raised (failed (f (error_text pg e))), d') ]

-- A test that returns early with a message.
unfoldable pub require : Bool → Text → Exec (Unit {0})
unfolding pure throw
require true message = pure tt
require false message = throw (failed message)
