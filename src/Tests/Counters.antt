-- ===== src/Tests/Counters.antt =====
-- Locks by name, reference counters and the size of user namespaces at concrete inputs.
use containers_storage.UserNs.{auto_size}
use containers_storage.Prelude.{ℕ, str_eq}
use containers_storage.Locker.{arrive}
use containers_storage.Prelude.{str_eq}
use containers_storage.Prelude.{◌≡◌, ◌≤◌, ◌⊎◌, refl, true, false, Option, none, some, codes, arith}
use containers_storage.Prelude.GoMap
use containers_storage.Prelude.GoMap.{GoMap}
use containers_storage.Prelude.Int.{pos}
use containers_storage.Prelude.Exec.{ok}
use containers_storage.IdSet.{Interval}
use containers_storage.Locker.{Locker, LockCtr, new_locker, acquire, unlock}
use containers_storage.Locker.Exclusion.{mutual_exclusion}
use containers_storage.Locker.System.{
  System, Reachable, starts, arrives, acquires, arrived, acquired,
}
use containers_storage.RefCounter.{Minfo}
use containers_storage.UserNs.Size.{auto_size_bounds}

abbrev fresh : LockCtr
fresh = record { held = false; waiters = 0 }

abbrev at_start : System
at_start = record { locker = new_locker fresh; waiting = λ n r. 0; holding = λ n r. 0 }

-- Two callers have come, and the first has got the lock.
abbrev two_wait : System
two_wait = arrived (codes "a") (arrived (codes "a") at_start)

-- The locker with the lock taken.
abbrev or_same : Option Locker → Locker
or_same none = two_wait.locker
or_same (some l) = l

abbrev one_holds : System
one_holds = acquired (codes "a") 0 (or_same (acquire 0 two_wait.locker)) two_wait

two_come : Reachable two_wait
two_come = arrives (codes "a") _ (arrives (codes "a") _ (starts fresh))

first_gets : Reachable one_holds
unfolding str_eq arrive GoMap.get GoMap.put acquire
first_gets =
    acquires (codes "a") 0 (or_same (acquire 0 two_wait.locker)) two_wait two_come (omega arith)
      refl

mutual_exclusion_example :
    (◌≡◌ {A = ℕ} 0 0)
    × (one_holds.holding (codes "a") 0 ≡ 1)
    × ((unlock (codes "a") one_holds.locker).0 ≡ ok tt)
unfolding str_eq
mutual_exclusion_example =
    mutual_exclusion one_holds (codes "a") 0 0 first_gets (omega arith) (omega arith)

auto_size_bounds_example :
    ((1 ≤ 2000) × (10 ≤ 2000) × (1024 ≤ 2000) × (2000 ≤ 2000))
    × ((◌≡◌ {A = ℕ} 65536 0) ⊎ (2000 ≤ 65536))
    × ((◌≡◌ {A = ℕ} 2000 1)
        ⊎ (◌≡◌ {A = ℕ} 2000 10)
        ⊎ (◌≡◌ {A = ℕ} 2000 1024)
        ⊎ (◌≡◌ {A = ℕ} 2000 2000))
unfolding auto_size
auto_size_bounds_example = auto_size_bounds 10 1024 65536 2000 (some (ok 2000)) refl

abbrev ten : Interval
ten = record { start = pos 0; end = pos 10 }

abbrev middle : Interval
middle = record { start = pos 3; end = pos 5 }

abbrev counts : GoMap Minfo
counts = GoMap.put GoMap.empty (codes "/m") (record { check = true; count = pos 2 })
