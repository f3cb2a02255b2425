-- ===== src/Lock/Tests.antt =====
-- internal/lock/lock_manager.go with one table.
use ice_core.Base.{ℕ, ◌≡◌, refl, some, Text, codes, nat_eq, text_eq}
use ice_core.Base.Dict.{lookup, insert}
use ice_core.Lock.{
  shared, exclusive, System, init, ask, get_or_create, take_hold, may_hold, writers, readers, holds,
  Reach, here, next, asks, takes,
}
use ice_core.Lock.Exclusion.{writer_alone}
use ice_core.Lock.Pointers.{Reach-IsInjective, Reach-keeps, IsInjective}
use ice_core.Lock.Deadlock.{Deadlocked, deadlock_forever, rename_locks, rename_to_itself-Deadlocked}

abbrev users : Text
users = codes "users"

abbrev asked : System
asked = ask init 4 users exclusive

-- Goroutine 4 writes the table.
abbrev written : System
written = take_hold asked 4 0 exclusive

written-Reach : Reach init written
unfolding ask get_or_create lookup insert may_hold writers readers
written-Reach = next (next here (asks 4 users exclusive refl)) (takes 4 0 exclusive refl refl)

writer_alone_example : ◌≡◌ {A = ℕ} 4 4 × (exclusive ≡ exclusive)
unfolding holds ask get_or_create lookup
writer_alone_example = writer_alone written-Reach 0 4 4 exclusive refl refl

Reach-IsInjective_example : IsInjective written
Reach-IsInjective_example = Reach-IsInjective written-Reach

Reach-keeps_example : lookup users (ask asked 5 users shared).locks ≡ some 0
unfolding ask get_or_create lookup insert
Reach-keeps_example = Reach-keeps users 0 (next here (asks {s = asked} 5 users shared refl)) refl

rename_to_itself_example :
    Reach init (rename_locks init 4 users users)
    × Deadlocked 4 4
        (get_or_create init users).0
        (get_or_create init users).0
        (rename_locks init 4 users users)
rename_to_itself_example = rename_to_itself-Deadlocked init 4 users refl refl

abbrev stuck : System
stuck = ask written 4 users exclusive

stuck-Deadlocked : Deadlocked 4 4 0 0 stuck
unfolding ask get_or_create lookup insert holds
stuck-Deadlocked = record { first = refl; first_waits = refl; second = refl; second_waits = refl }

stuck-moves : Reach stuck (ask stuck 5 users shared)
unfolding ask get_or_create lookup insert
stuck-moves = next here (asks 5 users shared refl)

deadlock_forever_example : Deadlocked 4 4 0 0 (ask stuck 5 users shared)
deadlock_forever_example = deadlock_forever 4 4 0 0 stuck-moves stuck-Deadlocked
