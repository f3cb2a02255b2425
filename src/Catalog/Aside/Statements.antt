-- ===== src/Catalog/Aside/Statements.antt =====
-- The statements of the client, one by one: each leaves the other tables as they were.
use ice_core.Base.{
  ℕ, suc, ◌≡◌, ◌≢◌, refl, sym, ◌∙◌, true, false, not, ◌&&◌, ◌==◌, text_eq, nat_eq, text_beq_iff,
  Text, arith, inl, inr, Result-cases, Bool-cases, filter, length,
}
use mathlib.Core.Path.{subst}
use ice_core.Base.Int.{◌<ℤ◌, pos, int_eq}
use ice_core.Db.Rows.{TableRow, StoredTable, Tables, Sequences}
use ice_core.Db.Exec.{Pg, Sql, Outcome, reading, casting}
use ice_core.Db.Select.{update_where, is_live}
use ice_core.Db.Live.{
  IdsBelow-up, live_row-update_where, update_where-UniqueIds, All-update_where, live_row-filter,
  filter-UniqueIds, All-filter, live_row-append, append-UniqueIds, append-IdsBelow,
}
use ice_core.Db.Tables.{update_live, insert_table, name_taken, rename_row}
use ice_core.Db.Partitions.{select_partitions}
use ice_core.Db.Transactions.{soft_delete, delete_table_row, any_refers}
use ice_core.Catalog.Aside.{Aside, Local}

module _ (pg : Pg) (others : Text → Type 0) (before : Tables) where
  -- A statement that leaves `tables` and `partitions`, and the sequence of the tables.
  pub record Inert {A : Type 0} (q : Sql A) : Type 0 where
    pub same_tables : (m : ℕ) (t : Tables) (s : Sequences) → (q m t s).1.tables ≡ t.tables
    pub same_partitions :
        (m : ℕ) (t : Tables) (s : Sequences) → (q m t s).1.partitions ≡ t.partitions
    pub same_seq : (m : ℕ) (t : Tables) (s : Sequences) → (q m t s).2.table_seq ≡ s.table_seq

  Aside-same :
      (s s' : Sequences) (t t' : Tables)
      → t'.tables ≡ t.tables
      → t'.partitions ≡ t.partitions
      → s'.table_seq ≡ s.table_seq
      → Aside pg others before s t
      → Aside pg others before s' t'
  unfolding select_partitions
  Aside-same s s' t t' e f g h = record {
    unique = rw e h.unique;
    below = rw (e, g) h.below;
    same = λ n r o l. rw e (h.same n r o l);
    view = λ n r snapshot o l. rw f (h.view n r snapshot o l);
  }

  pub Inert-Local : {A : Type 0} (q : Sql A) → Inert q → Local pg others before q
  Inert-Local q i = record {
    step = λ m t s h.
        Aside-same s _ t _ (i.same_tables m t s) (i.same_partitions m t s) (i.same_seq m t s) h;
    grows = λ m t s. omega (arith, i.same_seq m t s);
  }

  pub reading-Local : {A : Type 0} (f : Tables → Outcome A) → Local pg others before (reading f)
  unfolding reading
  reading-Local f = record { step = λ m t s h. h; grows = λ m t s. omega arith }

  pub casting-Local :
      {A : Type 0} (raw : Text) (f : Text → Sql A)
      → ((json : Text) → Local pg others before (f json))
      → Local pg others before (casting pg raw f)
  unfolding casting
  casting-Local raw f h = record {
    step = λ m t s a. elim (Result-cases (pg.jsonb raw)) [
      | inl (json, good) ↦ rw (good, casting) ((h json).step m t s a)
      | inr (e, bad) ↦ rw (bad, casting) a
    ];
    grows = λ m t s. elim (Result-cases (pg.jsonb raw)) [
      | inl (json, good) ↦ rw (good, casting) ((h json).grows m t s)
      | inr (e, bad) ↦ rw (bad, casting) (omega arith)
    ];
  }

  -- `is_live` of another name does not hold of a row that is live under this one.
  other_live :
      (n name : Text) (t : StoredTable) → n ≢ name → is_live name t ≡ true → is_live n t ≡ false
  other_live n name t h e =
      ground (arith, e, h, text_beq_iff t.table_name n, text_beq_iff t.table_name name)

  -- A change of the live rows of one name that keeps their ids.
  update-Local :
      (name : Text) (f : StoredTable → StoredTable) (t : Tables) (s : Sequences)
      → ((n : Text) → others n → n ≢ name)
      → ((u : StoredTable) → (f u).table_id ≡ u.table_id)
      → ((n : Text) (u : StoredTable) → others n → is_live name u ≡ true → is_live n (f u) ≡ false)
      → Aside pg others before s t
      → Aside pg others before s (record t { tables = update_where (is_live name) f t.tables })
  unfolding select_partitions
  update-Local name f t s apart ids moved h = record {
    unique = update_where-UniqueIds _ f t.tables ids h.unique;
    below =
        All-update_where _ _ f t.tables
          (λ u b. subst (λ z. z <ℤ pos (suc s.table_seq)) (sym (ids u)) b) h.below;
    same = λ n r o l.
        live_row-update_where n (is_live name) f t.tables
          (λ u live. (other_live n name u (apart n o) live, moved n u o live))
        ∙ h.same n r o l;
    view = h.view;
  }

  pub update_live-Local :
      (name : Text) (f : TableRow → TableRow)
      → ((n : Text) → others n → n ≢ name)
      → ((r : TableRow) → (f r).table_id ≡ r.table_id)
      → ((r : TableRow) → (f r).table_name ≡ r.table_name)
      → Local pg others before (update_live pg name f)
  update_live-Local name f apart ids names = record {
    step = λ m t s.
        update-Local name (λ u. record u { row = f u.row }) t s apart (λ u. ids u.row)
          (λ n u o live. ground (arith, names u.row, other_live n name u (apart n o) live));
    grows = λ m t s. omega arith;
  }

  pub soft_delete-Local :
      (name : Text)
      → ((n : Text) → others n → n ≢ name)
      → Local pg others before (soft_delete pg name)
  soft_delete-Local name apart = record {
    step = λ m t s.
        update-Local name (λ u. record u { is_deleted = true }) t s apart (λ u. refl)
          (λ n u o live. ground arith);
    grows = λ m t s. omega arith;
  }

  pub rename_row-Local :
      (name new_name : Text)
      → ((n : Text) → others n → (n ≢ name) × (n ≢ new_name))
      → Local pg others before (rename_row pg name new_name)
  unfolding rename_row
  rename_row-Local name new_name apart = record {
    step = λ m t s h. elim (Bool-cases (length (filter (is_live name) t.tables) == 0)) [
      | inl absent ↦ rw absent h
      | inr present ↦
          elim (Bool-cases (name_taken pg new_name t.tables && not (new_name == name))) [
            | inl taken ↦ rw (present, taken) h
            | inr free ↦
                rw (present, free)
                  (update-Local name
                    (λ u. record u { row = record u.row { table_name = new_name } }) t s
                    (λ n o. (apart n o).0) (λ u. refl)
                    (λ n u o live. ground (arith, (apart n o).1, text_beq_iff new_name n)) h)
          ]
    ];
    grows = λ m t s. elim (Bool-cases (length (filter (is_live name) t.tables) == 0)) [
      | inl absent ↦ rw absent (omega arith)
      | inr present ↦
          elim (Bool-cases (name_taken pg new_name t.tables && not (new_name == name))) [
            | inl taken ↦ rw (present, taken) (omega arith)
            | inr free ↦ rw (present, free) (omega arith)
          ]
    ];
  }

  pub delete_table_row-Local :
      (name : Text)
      → ((n : Text) → others n → n ≢ name)
      → Local pg others before (delete_table_row pg name)
  unfolding delete_table_row select_partitions
  delete_table_row-Local name apart = record {
    step = λ m t s h. elim (Bool-cases (any_refers pg name t.tables t)) [
      | inl refers ↦ rw refers h
      | inr free ↦ rw free (record {
        unique = filter-UniqueIds _ t.tables h.unique;
        below = All-filter _ _ t.tables h.below;
        same = λ n r o l.
            live_row-filter n (λ u. not (u.table_name == name)) t.tables
              (λ u gone. ground (
                arith,
                gone,
                apart n o,
                text_beq_iff u.table_name n,
                text_beq_iff u.table_name name,
              ))
            ∙ h.same n r o l;
        view = h.view;
      })
    ];
    grows = λ m t s. elim (Bool-cases (any_refers pg name t.tables t)) [
      | inl refers ↦ rw refers (omega arith)
      | inr free ↦ rw free (omega arith)
    ];
  }

  pub insert_table-Local :
      (name schema spec properties : Text)
      → Local pg others before (insert_table pg name schema spec properties)
  unfolding insert_table select_partitions
  insert_table-Local name schema spec properties = record {
    step = λ m t s h. elim (Bool-cases (name_taken pg name t.tables)) [
      | inl taken ↦ rw taken (record {
        unique = h.unique;
        below = IdsBelow-up s.table_seq (suc s.table_seq) t.tables (omega arith) h.below;
        same = h.same;
        view = h.view;
      })
      | inr free ↦ rw free (record {
        unique = append-UniqueIds s.table_seq t.tables _ refl h.below h.unique;
        below = append-IdsBelow s.table_seq t.tables _ refl h.below;
        same = λ n r o l. live_row-append n t.tables _ r (h.same n r o l);
        view = h.view;
      })
    ];
    grows = λ m t s. elim (Bool-cases (name_taken pg name t.tables)) [
      | inl taken ↦ rw taken (omega arith)
      | inr free ↦ rw free (omega arith)
    ];
  }
