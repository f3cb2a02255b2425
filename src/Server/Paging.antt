-- ===== src/Server/Paging.antt =====
-- internal/server/metadata_server.go: a client that lists the tables page by page, by the token of each
-- reply.
pub mod Complete
mod Tests
use ice_core.Base.{
  ℕ, zero, suc, ◌+◌, ◌-◌, ◌≤◌, ◌<◌, ◌^◌, ◌≡◌, ◌≢◌, sym, ap, ◌∙◌, false, not, ◌&&◌, Option, none,
  some, List, [], ◌∷◌, ◌++◌, map, ◌==◌, text_eq, nat_eq, if◌then◌else◌, Text, length, take, drop,
  filter, arith, inl, inr, Bool-cases, ltb,
}
use mathlib.Core.List.{append-nil}
use mathlib.Core.Path.{subst}
use ice_core.Base.Pages.{map-snoc}
use ice_core.Base.Int.{ℤ, pos, negsuc, ltb_ℤ, leb_ℤ, int_eq}
use ice_core.Db.Rows.{TableRow, Tables, Db}
use ice_core.Db.Exec.{done, on_pool, reading, unless_found}
use ice_core.Db.Select.{order_by, live_row-cases}
use ice_core.Db.Tables.{get_table_id, list_tables as db_tables}
use ice_core.Db.Partitions.{get_visible_partition_count}
use ice_core.Db.Calm.{Never, calm_pool}
use ice_core.Db.Triples.{Post, Triple, triple_pure, triple_bind}
use ice_core.Transaction.{MvccManager}
use ice_core.Server.{Env, MetadataServer, Reply, response, status}
use ice_core.Server.Tables.{
  TableSummary, ListTablesResponse, list_tables, summaries, count_partitions, offset_of, next_token,
}
use ice_core.Server.Sound.{Runs, On, runs_call, runs_bind, runs_answer, runs_to}

not_below : (n : ℕ) → ltb_ℤ (pos n) (pos 0) ≡ false
not_below n = ground arith

not_zero : (n : ℕ) → 0 < n → leb_ℤ (pos n) (pos 0) ≡ false
not_zero n h = ground (arith, h)

abbrev pub names_of : ListTablesResponse → List Text
names_of resp = map (λ t. t.table_name) resp.tables

-- The names of one page before those of the pages after it.
abbrev pub before_rest : List Text → Option (List Text) → Option (List Text)
before_rest names none = none
before_rest names (some rest) = some (names ++ rest)

abbrev pub follow :
    (Text → MetadataServer → Option (List Text))
    → Option (Reply ListTablesResponse × MetadataServer)
    → Option (List Text)
follow next none = none
follow next (some (status code message, s)) = none
follow next (some (response resp, s)) =
    let rest = before_rest (names_of resp) (next resp.next_page_token s) in
    if resp.next_page_token == [] then some (names_of resp) else rest

-- The names on all pages from a token on; none if a page fails, or the fuel is used up.
unfoldable pub read_all : Env → ℕ → ℤ → Text → MetadataServer → Option (List Text)
read_all env zero page_size page_token s = none
read_all env (suc fuel) page_size page_token s =
    follow (read_all env fuel page_size) (list_tables env [] page_size page_token s)

-- The rows that are not deleted, by id.
abbrev pub live_tables : Tables → List TableRow
live_tables t =
    order_by (λ r. r.table_id) (map (λ r. r.row) (filter (λ r. not r.is_deleted) t.tables))

module _ (env : Env) (calm : (n : ℕ) → env.pg.fault n ≡ none) (t : Tables) where
  abbrev pub Here : MvccManager → Db → Type 0
  Here m d = d.committed ≡ t

  abbrev pub Nowhere : MvccManager → Db → Type 0
  Nowhere m d = ⊥

  page_of :
      (namespace : Text) (size offset : ℕ) (token : Text) (v : MvccManager)
      → 0 < size
      → offset_of env token ≡ pos offset
      → Triple
          (Here v)
          (db_tables env.pg namespace (pos size) token)
          (λ rows d. (rows ≡ take size (drop offset (live_tables t))) × (d.committed ≡ t))
          Never
  unfolding db_tables reading
  page_of namespace size offset token v h e = calm_pool env.pg calm _ (λ d k.
      rw (Post, e, not_below offset, not_zero size h)
        (ap (λ t. take size (drop offset (live_tables t))) k, k))

  -- The query of an id does not fail; its value does not matter here.
  get_table_id-answers :
      (name : Text) (d : Db)
      → (id : ℤ) × (get_table_id env.pg name d
          ≡ (done id, record d { statements = suc d.statements }))
  unfolding get_table_id unless_found on_pool reading
  get_table_id-answers name d = elim (live_row-cases name d.committed.tables) [
    | inl (r, live) ↦ (r.table_id, ground (arith, calm d.statements, live))
    | inr missing ↦ (negsuc 0, ground (arith, calm d.statements, missing))
  ]

  get_table_id-Here :
      (name : Text) (v : MvccManager)
      → Triple (Here v) (get_table_id env.pg name) (λ _. Here v) Never
  get_table_id-Here name v = record {
    at = λ d k. subst (Post (λ _. Here v) Never) (sym (get_table_id-answers name d).1) k;
  }

  count-Here :
      (name : Text) (snapshot : ℕ) (v : MvccManager)
      → Triple (Here v) (get_visible_partition_count env.pg name snapshot) (λ _. Here v) Never
  unfolding get_visible_partition_count reading
  count-Here name snapshot v = triple_bind (get_table_id-Here name v) (λ id.
      elim (Bool-cases (ltb_ℤ id (pos 0))) [
        | inl negative ↦ rw negative (triple_pure _ (λ d k. k))
        | inr positive ↦ rw positive (calm_pool env.pg calm _ (λ d k. k))
      ])

  count_partitions-Here :
      (name : Text) (current : ℕ)
      → Runs (On Here) (count_partitions env name current) (λ _. On Here) (On Nowhere)
  unfolding count_partitions
  count_partitions-Here name current = elim (Bool-cases (ltb 0 current)) [
    | inl some_snapshot ↦ rw some_snapshot (runs_call env.pg _ (count-Here name current))
    | inr no_snapshot ↦ rw no_snapshot (runs_answer _ (λ s k. k))
  ]

  summaries-names :
      (rows : List TableRow) (acc : List TableSummary)
      → Runs
          (On Here)
          (summaries env rows acc)
          (λ ts. On (λ m d.
            (map (λ (t : TableSummary). t.table_name) ts
              ≡ map (λ (t : TableSummary). t.table_name) acc
                ++ map (λ (r : TableRow). r.table_name) rows)
            × (d.committed ≡ t)))
          (On Nowhere)
  unfolding summaries
  summaries-names [] acc = runs_answer acc (λ s k. (sym (append-nil _), k))
  summaries-names (r ∷ rows) acc =
      runs_bind (count_partitions-Here r.table_name _)
        (λ count. runs_to (summaries-names rows _) (λ ts s h. (h.0 ∙ map-snoc _ acc _ _, h.1)))

  abbrev pub Page : ℕ → ℕ → Text → ListTablesResponse → MetadataServer → Type 0
  Page size offset token resp = On (λ m d.
      (names_of resp
        ≡ map (λ (r : TableRow). r.table_name) (take size (drop offset (live_tables t))))
      × (resp.next_page_token
          ≡ next_token env (pos size) token (length (take size (drop offset (live_tables t)))))
      × (d.committed ≡ t))

  -- One page: the names of its rows, and the token after it.
  pub list_tables-Page :
      (size offset : ℕ) (token : Text)
      → 0 < size
      → offset_of env token ≡ pos offset
      → Runs (On Here) (list_tables env [] (pos size) token) (Page size offset token) (On Nowhere)
  unfolding list_tables
  list_tables-Page size offset token h e =
      runs_bind
        (runs_call
          {Q = λ rows m d. (rows ≡ take size (drop offset (live_tables t))) × (d.committed ≡ t)}
          env.pg _ (λ v. page_of [] size offset token v h e))
        (λ rows. record {
          at = λ s k.
              (runs_bind (summaries-names rows []) (λ ts. runs_answer _ (λ s' l. (
                l.0 ∙ ap (map (λ (r : TableRow). r.table_name)) k.0,
                ap (λ rows. next_token env (pos size) token (length rows)) k.0,
                l.1,
              )))).at
                s k.1;
        })
