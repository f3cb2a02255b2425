-- ===== src/Lock/Deadlock.antt =====
-- `RenameTable` of internal/catalog/catalog_manager.go takes the lock of the old name and then,
-- holding it, the lock of the new name.
use ice_core.Base.{
  ℕ, ◌≤◌, ◌≡◌, ◌≢◌, refl, ap, ◌∙◌, true, false, none, some, List, [], ◌∷◌, arith, ◌==◌, nat_eq,
  nat_beq_iff, text_eq, text_beq_iff, inl, inr, Text, Bool-cases,
}
use ice_core.Base.Dict.{lookup, lookup-insert}
use ice_core.Lock.{
  Mode, shared, exclusive, Hold, System, update, get_or_create, ask, writers, readers, may_hold,
  holds, let_go, take_hold, Step, asks, takes, leaves, Reach, here, next,
}
use ice_core.Lock.Exclusion.{writers-pos, ask-holders}

-- Goroutine i holds p as a writer and waits to write q, which j holds as a writer while it waits
-- to write p. The two goroutines, and the two mutexes, may be one.
pub record Deadlocked (i j p q : ℕ) (s : System) : Type 0 where
  pub first : holds (record { thread = i; mode = exclusive }) (s.holders p) ≡ true
  pub first_waits : s.waits i ≡ some (q, exclusive)
  pub second : holds (record { thread = j; mode = exclusive }) (s.holders q) ≡ true
  pub second_waits : s.waits j ≡ some (p, exclusive)

ask-waits :
    (s : System) (k i : ℕ) (table : Text) (mode : Mode)
    → k ≢ i
    → (ask s k table mode).waits i ≡ s.waits i
unfolding ask
ask-waits s k i table mode h = ground (arith, nat_beq_iff k i)

holds-let_go :
    (h : Hold) (i : ℕ) (hs : List Hold)
    → h.thread ≢ i
    → holds (record { thread = i; mode = exclusive }) hs ≡ true
    → holds (record { thread = i; mode = exclusive }) (let_go h hs) ≡ true
unfolding holds let_go
holds-let_go h i [] n t = cc
holds-let_go h i (k ∷ hs) n t =
    ground (arith, holds-let_go h i hs n, nat_beq_iff k.thread i, nat_beq_iff k.thread h.thread)

-- One side of the cycle under a step: a goroutine that waits for a mutex with a writer goes on
-- waiting, and goes on holding what it holds.
record Waiting (i p q : ℕ) (s : System) : Type 0 where
  held : holds (record { thread = i; mode = exclusive }) (s.holders p) ≡ true
  waits : s.waits i ≡ some (q, exclusive)

not-may_hold : (mode : Mode) (hs : List Hold) → 1 ≤ writers hs → may_hold mode hs ≡ false
unfolding may_hold
not-may_hold shared hs h = ground arith
not-may_hold exclusive hs h = ground arith

holds-update :
    (s : System) (i p r : ℕ) (hs : List Hold)
    → (holds (record { thread = i; mode = exclusive }) (s.holders r) ≡ true
        → holds (record { thread = i; mode = exclusive }) hs ≡ true)
    → holds (record { thread = i; mode = exclusive }) (s.holders p) ≡ true
    → holds (record { thread = i; mode = exclusive }) (update s.holders r hs p) ≡ true
holds-update s i p r hs keep h = elim (Bool-cases (r == p)) [
  | inl same ↦ rw same (keep (rw ((nat_beq_iff r p).0 same) h))
  | inr other ↦ rw other h
]

ne_of_waits : (s : System) {w : ℕ × Mode} (k i : ℕ) → s.waits k ≡ none → s.waits i ≡ some w → k ≢ i
ne_of_waits s k i free waits e = cc (ap s.waits e)

Step-Waiting :
    {s t : System} (i p q : ℕ)
    → Step s t
    → 1 ≤ writers (s.holders q)
    → Waiting i p q s
    → Waiting i p q t
Step-Waiting {s} i p q (asks k table mode free) busy w = record {
  held = rw (ask-holders s k table mode) w.held;
  waits = ask-waits s k i table mode (ne_of_waits s k i free w.waits) ∙ w.waits;
}
Step-Waiting {s} i p q (takes k r mode wants may) busy w = elim (Bool-cases (k == i)) [
  | inl same ↦
      let e : s.waits k ≡ some (q, exclusive) = rw ((nat_beq_iff k i).0 same) w.waits in
      absurd (ground (arith, not-may_hold exclusive (s.holders q) busy))
  | inr other ↦ record {
    held =
        holds-update s i p r (record { thread = k; mode = mode } ∷ s.holders r)
          (unfold holds in λ h. ground arith) w.held;
    waits = rw other w.waits;
  }
]
Step-Waiting {s} i p q (leaves r h free has) busy w = record {
  held =
      holds-update s i p r (let_go h (s.holders r))
        (holds-let_go h i (s.holders r) (ne_of_waits s h.thread i free w.waits)) w.held;
  waits = w.waits;
}

-- No step of any goroutine ends a deadlock.
Step-Deadlocked :
    {s t : System} (i j p q : ℕ) → Step s t → Deadlocked i j p q s → Deadlocked i j p q t
Step-Deadlocked {s} i j p q st d =
    let a =
      Step-Waiting i p q st (writers-pos j (s.holders q) d.second)
        (record { held = d.first; waits = d.first_waits }) in
    let b =
      Step-Waiting j q p st (writers-pos i (s.holders p) d.first)
        (record { held = d.second; waits = d.second_waits }) in
    record { first = a.held; first_waits = a.waits; second = b.held; second_waits = b.waits }

-- Once two goroutines each hold, as writers, the mutex that the other waits to write, they wait
-- for ever, whatever the other goroutines do. The two may be one.
pub deadlock_forever :
    {s t : System} (i j p q : ℕ) → Reach s t → Deadlocked i j p q s → Deadlocked i j p q t
deadlock_forever i j p q here d = d
deadlock_forever i j p q (next r st) d = Step-Deadlocked i j p q st (deadlock_forever i j p q r d)

-- The locking of `RenameTable(oldName, newName)` by goroutine i, alone: it asks for the old name's
-- lock, gets it, and asks for the new name's.
unfoldable pub rename_locks : System → ℕ → Text → Text → System
rename_locks s i old_name new_name =
    let asked = ask s i old_name exclusive in
    let held = take_hold asked i (get_or_create s old_name).0 exclusive in
    ask held i new_name exclusive

waits-ask :
    (s : System) (i : ℕ) (table : Text) (mode : Mode)
    → (ask s i table mode).waits i ≡ some ((get_or_create s table).0, mode)
unfolding ask
waits-ask s i table mode = ground (arith, nat_beq_iff i i)

locks-ask :
    (s : System) (i : ℕ) (table : Text) (mode : Mode)
    → lookup table (ask s i table mode).locks ≡ some (get_or_create s table).0
unfolding ask
locks-ask s i table mode =
    ground (arith, lookup-insert table table s.next_lock s.locks, text_beq_iff table table)

get_or_create_old :
    (s : System) (table : Text) (p : ℕ)
    → lookup table s.locks ≡ some p
    → (get_or_create s table).0 ≡ p
unfolding get_or_create
get_or_create_old s table p h = ground arith

-- From any state in which goroutine i waits for nothing and nobody holds the table's mutex,
-- `RenameTable(a, a)` comes by steps of that goroutine to a state where it waits for itself.
pub rename_to_itself-Deadlocked :
    (s : System) (i : ℕ) (a : Text)
    → s.waits i ≡ none
    → s.holders (get_or_create s a).0 ≡ []
    → Reach s (rename_locks s i a a)
      × Deadlocked i i (get_or_create s a).0 (get_or_create s a).0 (rename_locks s i a a)
unfolding rename_locks
rename_to_itself-Deadlocked s i a idle free =
    let p = (get_or_create s a).0 in
    let asked = ask s i a exclusive in
    let held = take_hold asked i p exclusive in
    let may : may_hold exclusive (asked.holders p) ≡ true =
      rw (ask-holders s i a exclusive, free) (unfold may_hold writers readers in refl) in
    let quiet : held.waits i ≡ none = ground (arith, nat_beq_iff i i) in
    let same : (get_or_create held a).0 ≡ p =
      get_or_create_old held a p (locks-ask s i a exclusive) in
    let wait : (ask held i a exclusive).waits i ≡ some (p, exclusive) =
      waits-ask held i a exclusive ∙ ap (λ q. some (q, exclusive)) same in
    let mine : holds (record { thread = i; mode = exclusive }) ((ask held i a exclusive).holders p)
        ≡ true =
      rw (ask-holders held i a exclusive)
        (unfold holds in ground (arith, nat_beq_iff p p, nat_beq_iff i i)) in
    (
      next
          (next (next here (asks i a exclusive idle))
            (takes i p exclusive (waits-ask s i a exclusive) may))
          (asks i a exclusive quiet),
      record { first = mine; first_waits = wait; second = mine; second_waits = wait },
    )
