-- ===== src/Lock.antt =====
-- internal/lock/lock_manager.go: one `sync.RWMutex` for each table, made on first use. A mutex is
-- named by a number, and stands by those who hold it: many readers, or one writer. A goroutine
-- that calls `LockShared` or `LockExclusive` first finds the mutex (`getOrCreate`, under `mu`) and
-- then waits until it may hold it. Every interleaving of goroutines is a sequence of steps.
pub mod Pointers
pub mod Exclusion
pub mod Deadlock
mod Tests
use ice_core.Base.{
  ℕ, suc, ◌+◌, ◌≡◌, Bool, true, false, ◌&&◌, Option, none, some, List, [], ◌∷◌, ◌==◌, nat_eq,
  text_eq, if◌then◌else◌, Text,
}
use ice_core.Base.Dict.{Dict, lookup, insert}

pub data Mode : Type 0 where
  shared exclusive : Mode

pub record Hold : Type 0 where
  pub thread : ℕ
  pub mode : Mode

-- `holders p` are the holds on mutex p, `waits i` is the lock that goroutine i waits for.
pub record System : Type 0 where
  pub locks : Dict Text ℕ
  pub next_lock : ℕ
  pub holders : ℕ → List Hold
  pub waits : ℕ → Option (ℕ × Mode)

abbrev pub init : System
init = record { locks = []; next_lock = 0; holders = λ p. []; waits = λ i. none }

abbrev pub update {ℓ} : {A : Type ℓ} → (ℕ → A) → ℕ → A → ℕ → A
update f p a q = if p == q then a else f q

-- `getOrCreate`: the mutex of the table, and the map with it.
unfoldable pub get_or_create : System → Text → ℕ × System
get_or_create s table = elim (lookup table s.locks) [
  | some p ↦ (p, s)
  | none ↦ (
    s.next_lock,
    record s { locks = insert table s.next_lock s.locks; next_lock = suc s.next_lock },
  )
]

-- The call up to the point where it waits: `l := m.getOrCreate(table)`.
unfoldable pub ask : System → ℕ → Text → Mode → System
unfolding get_or_create
ask s i table mode =
    let (p, s') = get_or_create s table in record s' { waits = update s'.waits i (some (p, mode)) }

abbrev pub same_mode : Mode → Mode → Bool
same_mode shared shared = true
same_mode exclusive exclusive = true
same_mode _ _ = false

abbrev pub same_hold : Hold → Hold → Bool
same_hold h k = h.thread == k.thread && same_mode h.mode k.mode

unfoldable pub writers : List Hold → ℕ
writers [] = 0
writers (h ∷ hs) = (if same_mode h.mode exclusive then 1 else 0) + writers hs

unfoldable pub readers : List Hold → ℕ
readers [] = 0
readers (h ∷ hs) = (if same_mode h.mode shared then 1 else 0) + readers hs

-- `RLock` waits for the writer to leave, `Lock` for everyone.
unfoldable pub may_hold : Mode → List Hold → Bool
may_hold shared hs = writers hs == 0
may_hold exclusive hs = writers hs == 0 && readers hs == 0

unfoldable pub holds : Hold → List Hold → Bool
holds h [] = false
holds h (k ∷ hs) = if same_hold k h then true else holds h hs

-- `RUnlock` or `Unlock`: one hold less.
unfoldable pub let_go : Hold → List Hold → List Hold
let_go h [] = []
let_go h (k ∷ hs) = if same_hold k h then hs else k ∷ let_go h hs

abbrev pub take_hold : System → ℕ → ℕ → Mode → System
take_hold s i p mode = record s {
  holders = update s.holders p (record { thread = i; mode = mode } ∷ s.holders p);
  waits = update s.waits i none;
}

abbrev pub leave : System → ℕ → Hold → System
leave s p h = record s { holders = update s.holders p (let_go h (s.holders p)) }

-- A goroutine that waits does nothing else.
pub data Step : System → System → Type 0 where
  asks :
      {s : System} (i : ℕ) (table : Text) (mode : Mode)
      → s.waits i ≡ none
      → Step s (ask s i table mode)
  takes :
      {s : System} (i p : ℕ) (mode : Mode)
      → s.waits i ≡ some (p, mode)
      → may_hold mode (s.holders p) ≡ true
      → Step s (take_hold s i p mode)
  leaves :
      {s : System} (p : ℕ) (h : Hold)
      → s.waits h.thread ≡ none
      → holds h (s.holders p) ≡ true
      → Step s (leave s p h)

pub data Reach (s : System) : System → Type 0 where
  here : Reach s s
  next : {t u : System} → Reach s t → Step t u → Reach s u
