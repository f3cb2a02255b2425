-- ===== src/Catalog/Manager/Altered.antt =====
-- `AlterTableSchema` that succeeds: the table and its history.
use ice_core.Base.{
  ℕ, ◌≡◌, refl, sym, ap, ◌∙◌, Option, none, some, [], ◌∷◌, ◌++◌, text_eq, Text, codes, ok, inl, inr,
}
use mathlib.Core.Path.{subst}
use ice_core.Base.Int.{pos, add32}
use ice_core.Db.Rows.{TableRow, Tables, Db}
use ice_core.Db.Exec.{Pg, done, ◌>>◌, on_tx, casting, reading, or_message, begin_tx, commit_tx}
use ice_core.Db.Select.{live_row, live_row-cases, update_where, is_live}
use ice_core.Db.Tables.{get_table, update_table_schema, select_table_id, update_live, insert_schema}
use ice_core.Db.Live.{select_live, live_row-updated}
use ice_core.Db.Triples.{
  Post, Triple, triple_pure, triple_throw, triple_bind, triple_then, triple_message, triple_unless,
  triple_given, triple_on_tx, triple_on_pool, triple_begin, triple_commit, sent_tx,
}
use ice_core.Catalog.Manager.{existing_table, alter_table_schema}
use ice_core.Db.Casting.{triple_cast}

module _ (pg : Pg) (table_name json summary : Text) (before : Tables) where
  -- The next version of the row.
  abbrev pub next_version : TableRow → Text → TableRow → TableRow
  next_version row schema r = record r {
    schema_json = schema;
    schema_version = add32 row.schema_version (pos 1);
  }

  abbrev pub with_row : TableRow → Text → Tables
  with_row row schema = record before {
    tables =
        update_where (is_live table_name) (λ u. record u { row = next_version row schema u.row })
          before.tables;
  }

  -- The live row has the next version, and the history ends with that version at some time.
  pub record IsAltered (after : Tables) : Type 0 where
    pub row : TableRow
    pub schema : Text
    pub changed_at : ℕ
    pub live : live_row table_name before.tables ≡ done row
    pub parsed : pg.jsonb json ≡ ok schema
    pub made : after ≡ record (with_row row schema) {
      schema_history =
          before.schema_history
          ++ record {
            table_id = row.table_id;
            schema_version = add32 row.schema_version (pos 1);
            schema_json = schema;
            changed_at = changed_at;
            change_summary = summary;
          }
            ∷ [];
    }

  Any : Db → Type 0
  Any d = Unit

  Found : Option TableRow → Db → Type 0
  Found none d = Unit
  Found (some r) d = (live_row table_name before.tables ≡ done r) × (d.committed ≡ before)

  get_table-Found : Triple (λ d. d.committed ≡ before) (get_table pg table_name) Found Any
  unfolding get_table reading Found Any
  get_table-Found =
      triple_unless none
        (triple_bind {Q = λ r. Found (some r)}
          (triple_on_pool pg _
            (λ d e. elim (live_row-cases table_name d.committed.tables) [
              | inl (r, live) ↦
                  rw (Post, live) (subst (λ t. live_row table_name t.tables ≡ done r) e live, e)
              | inr missing ↦ rw (Post, missing) tt
            ])
            (λ d e c. tt))
          (λ r. triple_pure (some r) (λ d f. f)))
        (λ d e. tt)

  existing_table-Found :
      (found : Option TableRow)
      → Triple (Found found) (existing_table pg table_name found) (λ r. Found (some r)) Any
  unfolding existing_table Found Any
  existing_table-Found none = triple_throw _ (λ d f. tt)
  existing_table-Found (some r) = triple_pure r (λ d f. f)

  module _ (row : TableRow) (live : live_row table_name before.tables ≡ done row) where
    -- The row is written, the history not yet.
    record Written (d : Db) : Type 0 where
      schema : Text
      parsed : pg.jsonb json ≡ ok schema
      made : d.pending ≡ with_row row schema

    update_row :
        Triple
          (λ d. d.pending ≡ before)
          (on_tx pg (casting pg json λ schema. update_live pg table_name (next_version row schema)))
          (λ _. Written)
          Any
    unfolding Any
    update_row =
        triple_cast pg json _
          (λ schema d good e. record {
            schema = schema;
            parsed = good;
            made = ap (updated schema) e;
          })
          (λ d e c. tt)
      where
        updated : Text → Tables → Tables
        updated schema t = record t {
          tables =
              update_where (is_live table_name)
                (λ u. record u { row = next_version row schema u.row }) t.tables;
        }

    find_row :
        Triple Written
          (on_tx pg (select_table_id pg table_name))
          (λ id d. (id ≡ row.table_id) × Written d)
          Any
    unfolding Any
    find_row =
        triple_on_tx pg _
          (λ d w.
            subst (λ o. Post (λ id d. (id ≡ row.table_id) × Written d) Any (sent_tx d o))
              (sym (
                select_live pg table_name (next_version row w.schema row) d.begun d.pending
                  d.sequences (still_live d w)))
              (refl, record { schema = w.schema; parsed = w.parsed; made = w.made }))
          (λ d w c. tt)
      where
        still_live :
            (d : Db) (w : Written d)
            → live_row table_name d.pending.tables ≡ done (next_version row w.schema row)
        still_live d w = rw w.made (
            live_row-updated table_name (next_version row w.schema) row before.tables (λ r. refl)
              live)

    insert_row :
        Triple Written
          (on_tx pg (
            casting pg json λ schema.
              insert_schema pg row.table_id (add32 row.schema_version (pos 1)) schema summary))
          (λ _ d. IsAltered d.pending)
          Any
    unfolding Any
    insert_row =
        triple_cast pg json _
          (λ schema d good w. record {
            row = row;
            schema = schema;
            changed_at = pg.now d.begun;
            live = live;
            parsed = good;
            made =
                ap (logged schema (pg.now d.begun))
                  (w.made ∙ ap (with_row row) (one_json w.parsed good));
          })
          (λ d w c. tt)
      where
        logged : Text → ℕ → Tables → Tables
        logged schema time t = record t {
          schema_history =
              t.schema_history
              ++ record {
                table_id = row.table_id;
                schema_version = add32 row.schema_version (pos 1);
                schema_json = schema;
                changed_at = time;
                change_summary = summary;
              }
                ∷ [];
        }

        one_json : {a b : Text} → pg.jsonb json ≡ ok a → pg.jsonb json ≡ ok b → a ≡ b
        one_json p q = cc

    update_table_schema-IsAltered :
        Triple
          (λ d. d.pending ≡ before)
          (update_table_schema pg table_name json (add32 row.schema_version (pos 1)) summary)
          (λ _ d. IsAltered d.pending)
          Any
    unfolding update_table_schema
    update_table_schema-IsAltered =
        triple_then update_row
          (λ _. triple_bind find_row (λ id. triple_given (λ same. rw same insert_row)))

    in_tx-IsAltered :
        Triple
          (λ d. d.committed ≡ before)
          (do
            or_message pg (λ e. e) (begin_tx pg)
            or_message pg
                (λ _. codes "failed to update schema for: " ++ table_name)
                (update_table_schema pg table_name json (add32 row.schema_version (pos 1)) summary)
            or_message pg (λ e. e) (commit_tx pg))
          (λ _ d. IsAltered d.committed)
          Any
    unfolding Any
    in_tx-IsAltered =
        triple_then
          (triple_message pg _
            (triple_begin {Q = λ _ d. d.pending ≡ before} pg (λ d e. e) (λ d e. tt)))
          (λ _.
            triple_then (triple_message pg _ update_table_schema-IsAltered)
              (λ _. triple_message pg _ (triple_commit pg (λ d a. a) (λ d a. tt))))

  alter_table_schema-Altered :
      Triple
        (λ d. d.committed ≡ before)
        (alter_table_schema pg table_name json summary)
        (λ _ d. IsAltered d.committed)
        Any
  unfolding alter_table_schema Found
  alter_table_schema-Altered = triple_bind (triple_message pg _ get_table-Found) (λ found.
      triple_bind (existing_table-Found found)
        (λ row. triple_given (λ live. in_tx-IsAltered row live)))

-- An `AlterTableSchema` that succeeds was given a schema that casts to JSONB and a table with a live
-- row. It writes that schema and the next version, with the wrap-around of 32 bits, to that row, adds one
-- row of the same version, schema and summary to the history, and changes nothing else that is committed.
pub alter_table_schema-success :
    (pg : Pg) (table_name json summary : Text) (d d' : Db)
    → alter_table_schema pg table_name json summary d ≡ (done tt, d')
    → IsAltered pg table_name json summary d.committed d'.committed
unfolding Any
alter_table_schema-success pg table_name json summary d d' e =
    subst (Post (λ _ x. IsAltered pg table_name json summary d.committed x.committed) (λ d. Unit)) e
      ((alter_table_schema-Altered pg table_name json summary d.committed).at d refl)
