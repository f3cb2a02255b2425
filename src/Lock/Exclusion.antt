-- ===== src/Lock/Exclusion.antt =====
-- A writer of a table is alone.
use ice_core.Base.{
  ℕ, ◌≤◌, ◌≡◌, refl, true, List, [], ◌∷◌, arith, nat_eq, nat_beq_iff, ◌⊎◌, inl, Text,
}
use ice_core.Lock.{
  Mode, shared, exclusive, Hold, System, init, ask, writers, readers, may_hold, holds, let_go, Step,
  asks, takes, leaves, Reach, here, next,
}

-- Many readers, or one writer.
abbrev pub IsFair : List Hold → Type 0
IsFair hs = (writers hs ≡ 0) ⊎ ((writers hs ≡ 1) × (readers hs ≡ 0))

writers-let_go :
    (h : Hold) (hs : List Hold)
    → (writers (let_go h hs) ≤ writers hs) × (readers (let_go h hs) ≤ readers hs)
unfolding writers readers let_go
writers-let_go h [] = omega arith
writers-let_go h (k ∷ hs) = ground (arith, writers-let_go h hs)

pub ask-holders :
    (s : System) (i : ℕ) (table : Text) (mode : Mode) → (ask s i table mode).holders ≡ s.holders
unfolding ask
ask-holders s i table mode = ground arith

-- Every step keeps the holders of every mutex fair.
pub Step-IsFair :
    {s t : System} → Step s t → ((p : ℕ) → IsFair (s.holders p)) → (p : ℕ) → IsFair (t.holders p)
unfolding may_hold writers readers
Step-IsFair {s} (asks i table mode free) fair p = rw (ask-holders s i table mode) (fair p)
Step-IsFair {s} (takes i q shared w m) fair p = ground (arith, fair p, fair q)
Step-IsFair {s} (takes i q exclusive w m) fair p = ground (arith, fair p, fair q)
Step-IsFair {s} (leaves q h w m) fair p =
    ground (arith, fair p, fair q, writers-let_go h (s.holders q))

Reach-IsFair : {s : System} → Reach init s → (p : ℕ) → IsFair (s.holders p)
unfolding writers
Reach-IsFair here p = inl refl
Reach-IsFair (next r st) p = Step-IsFair st (Reach-IsFair r) p

pub writers-pos :
    (i : ℕ) (hs : List Hold)
    → holds (record { thread = i; mode = exclusive }) hs ≡ true
    → 1 ≤ writers hs
unfolding holds writers
writers-pos i [] h = cc
writers-pos i (k ∷ hs) h = ground (arith, writers-pos i hs)

readers-pos :
    (i : ℕ) (hs : List Hold)
    → holds (record { thread = i; mode = shared }) hs ≡ true
    → 1 ≤ readers hs
unfolding holds readers
readers-pos i [] h = cc
readers-pos i (k ∷ hs) h = ground (arith, readers-pos i hs)

alone :
    (i j : ℕ) (mode : Mode) (hs : List Hold)
    → writers hs ≤ 1
    → readers hs ≡ 0
    → holds (record { thread = i; mode = exclusive }) hs ≡ true
    → holds (record { thread = j; mode = mode }) hs ≡ true
    → (i ≡ j) × (mode ≡ exclusive)
unfolding holds writers readers
alone i j mode [] w r h k = cc
alone i j shared (x ∷ hs) w r h k =
    ground
      (arith, alone i j shared hs, readers-pos j hs, nat_beq_iff x.thread i, nat_beq_iff x.thread j)
alone i j exclusive (x ∷ hs) w r h k = ground (
  arith,
  alone i j exclusive hs,
  writers-pos i hs,
  writers-pos j hs,
  nat_beq_iff x.thread i,
  nat_beq_iff x.thread j,
)

-- In every reachable state, whoever holds a mutex while some goroutine holds it as its writer is
-- that goroutine, and holds it as a writer.
pub writer_alone :
    {s : System}
    → Reach init s
    → (p i j : ℕ) (mode : Mode)
    → holds (record { thread = i; mode = exclusive }) (s.holders p) ≡ true
    → holds (record { thread = j; mode = mode }) (s.holders p) ≡ true
    → (i ≡ j) × (mode ≡ exclusive)
writer_alone {s} r p i j mode h k =
    let fair = Reach-IsFair r p in
    let some_writer = writers-pos i (s.holders p) h in
    alone i j mode (s.holders p) (omega arith) (omega arith) h k
