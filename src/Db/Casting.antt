-- ===== src/Db/Casting.antt =====
-- Statements with a parameter that is cast to JSONB.
use ice_core.Base.{
  Bool, false, if◌then◌else◌, ℕ, suc, ◌≡◌, refl, sym, text_eq, Text, ok, err, inl, inr,
  Result-cases,
}
use mathlib.Core.Path.{subst}
use ice_core.Db.Rows.{Tables, Sequences, Db}
use ice_core.Db.Exec.{Pg, Sql, raised, failed, on_tx, casting}
use ice_core.Db.Triples.{Post, Triple, triple_on_tx, sent_tx}

module _ {A : Type 0} (pg : Pg) (raw : Text) (f : Text → Sql A) (n : ℕ) (t : Tables)
    (s : Sequences) where
  pub casting-parsed :
      (json : Text) → pg.jsonb raw ≡ ok json → casting pg raw f n t s ≡ f json n t s
  unfolding casting
  casting-parsed json good = rw (casting, good) refl

  casting-refused :
      (x : Text) → pg.jsonb raw ≡ err x → casting pg raw f n t s ≡ (raised (failed x), t, s)
  unfolding casting
  casting-refused x bad = rw (casting, bad) refl

-- A statement whose parameter is cast.
pub triple_cast :
    {A : Type 0} {P E : Db → Type 0} {Q : A → Db → Type 0} (pg : Pg) (raw : Text) (f : Text → Sql A)
    → ((json : Text) (d : Db)
        → pg.jsonb raw ≡ ok json
        → P d
        → Post Q E (sent_tx d (f json d.begun d.pending d.sequences)))
    → ((d : Db)
        → P d
        → (taken : Bool)
        → E (record d {
          sequences =
              if taken then (casting pg raw f d.begun d.pending d.sequences).2 else d.sequences;
          statements = suc d.statements;
        }))
    → Triple P (on_tx pg (casting pg raw f)) Q E
triple_cast {E} {Q} pg raw f h k =
    triple_on_tx pg _
      (λ d p. elim (Result-cases (pg.jsonb raw)) [
        | inl (json, good) ↦
            subst (λ o. Post Q E (sent_tx d o))
              (sym (casting-parsed pg raw f d.begun d.pending d.sequences json good))
              (h json d good p)
        | inr (x, bad) ↦
            subst (λ o. Post Q E (sent_tx d o))
              (sym (casting-refused pg raw f d.begun d.pending d.sequences x bad)) (k d p false)
      ])
      k
