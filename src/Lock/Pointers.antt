-- ===== src/Lock/Pointers.antt =====
-- `getOrCreate`: a table keeps its mutex for ever, and no two tables share one.
use ice_core.Base.{ℕ, ◌<◌, ◌≡◌, some, arith, text_eq, text_beq_iff, Text, Option-cases, inl, inr}
use ice_core.Base.Dict.{lookup, lookup-insert}
use ice_core.Lock.{
  Mode, System, init, get_or_create, ask, Step, asks, takes, leaves, Reach, here, next,
}

-- Every mutex in the map has been made, and each table's is its own.
pub record IsInjective (s : System) : Type 0 where
  pub made : (t : Text) (p : ℕ) → lookup t s.locks ≡ some p → p < s.next_lock
  pub own : (t u : Text) (p : ℕ) → lookup t s.locks ≡ some p → lookup u s.locks ≡ some p → t ≡ u

ask-IsInjective :
    (s : System) (i : ℕ) (table : Text) (mode : Mode)
    → IsInjective s
    → IsInjective (ask s i table mode)
unfolding ask
ask-IsInjective s i table mode v = elim (Option-cases (lookup table s.locks)) [
  | inr (q, found) ↦ rw (found, ask, get_or_create) (record { made = v.made; own = v.own })
  | inl missing ↦
      rw (missing, ask, get_or_create)
        (record {
          made = λ t p h.
              ground (
                arith,
                lookup-insert table t s.next_lock s.locks,
                text_beq_iff table t,
                v.made t p,
              );
          own = λ t u p h k. ground (
            arith,
            lookup-insert table t s.next_lock s.locks,
            lookup-insert table u s.next_lock s.locks,
            text_beq_iff table t,
            text_beq_iff table u,
            v.made t p,
            v.made u p,
            v.own t u p,
          );
        })
]

Step-IsInjective : {s t : System} → Step s t → IsInjective s → IsInjective t
Step-IsInjective {s} (asks i table mode free) v = ask-IsInjective s i table mode v
Step-IsInjective {s} (takes i p mode w m) v = record { made = v.made; own = v.own }
Step-IsInjective {s} (leaves p h w m) v = record { made = v.made; own = v.own }

-- In every reachable state every mutex in the map was made before, and two tables with one mutex
-- are one table.
pub Reach-IsInjective : {s : System} → Reach init s → IsInjective s
unfolding lookup
Reach-IsInjective here = record { made = λ t p h. cc; own = λ t u p h k. cc }
Reach-IsInjective (next r st) = Step-IsInjective st (Reach-IsInjective r)

ask-keeps :
    (s : System) (i : ℕ) (table t : Text) (mode : Mode) (p : ℕ)
    → lookup t s.locks ≡ some p
    → lookup t (ask s i table mode).locks ≡ some p
unfolding ask
ask-keeps s i table t mode p h =
    ground (arith, lookup-insert table t s.next_lock s.locks, text_beq_iff table t)

Step-keeps :
    {s t : System} (table : Text) (p : ℕ)
    → Step s t
    → lookup table s.locks ≡ some p
    → lookup table t.locks ≡ some p
Step-keeps {s} table p (asks i other mode free) h = ask-keeps s i other table mode p h
Step-keeps {s} table p (takes i q mode w m) h = h
Step-keeps {s} table p (leaves q x w m) h = h

-- Whatever happens, a table that has a mutex keeps it.
pub Reach-keeps :
    {s t : System} (table : Text) (p : ℕ)
    → Reach s t
    → lookup table s.locks ≡ some p
    → lookup table t.locks ≡ some p
Reach-keeps table p here h = h
Reach-keeps table p (next r st) h = Step-keeps table p st (Reach-keeps table p r h)
