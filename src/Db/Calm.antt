-- ===== src/Db/Calm.antt =====
-- The calls of a database on which no statement fails.
use ice_core.Base.{ℕ, ◌≡◌, Bool, true, false, none, Text}
use ice_core.Db.Rows.{Db}
use ice_core.Db.Exec.{Pg, Sql, pure, on_tx, on_pool, require}
use ice_core.Db.Triples.{Post, Triple, sent_tx, sent_pool}

abbrev pub Never : Db → Type 0
Never d = ⊥

module _ (pg : Pg) (calm : (n : ℕ) → pg.fault n ≡ none) where
  pub calm_tx :
      {A : Type 0} {P : Db → Type 0} {Q : A → Db → Type 0} (q : Sql A)
      → ((d : Db) → P d → Post Q Never (sent_tx d (q d.begun d.pending d.sequences)))
      → Triple P (on_tx pg q) Q Never
  unfolding on_tx
  calm_tx q h = record { at = λ d p. rw (calm d.statements, on_tx) (h d p) }

  pub calm_pool :
      {A : Type 0} {P : Db → Type 0} {Q : A → Db → Type 0} (q : Sql A)
      → ((d : Db) → P d → Post Q Never (sent_pool d (q d.statements d.committed d.sequences)))
      → Triple P (on_pool pg q) Q Never
  unfolding on_pool
  calm_pool q h = record { at = λ d p. rw (calm d.statements, on_pool) (h d p) }

pub holding :
    {P : Db → Type 0} (b : Bool) (message : Text)
    → ((d : Db) → P d → b ≡ true)
    → Triple P (require b message) (λ _. P) Never
unfolding require pure
holding true message h = record { at = λ d p. p }
holding false message h = record { at = λ d p. absurd (cc (h d p)) }
