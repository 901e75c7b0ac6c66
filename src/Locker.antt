-- ===== src/Locker.antt =====
-- pkg/locker/locker.go: locks by name. The goroutines that call it take turns: a call of Lock has a part
-- under the main mutex, which enters the name and counts the caller as waiting, and a part in which the
-- caller gets the lock of the name and is waiting no more. A caller keeps the lock object that it found
-- in the first part, also where the name has got another one since.
pub mod System
pub mod Exclusion
use containers_storage.Prelude.{
  ℕ, ◌+◌, ◌-◌, Bool, true, false, Option, none, some, Str, if◌then◌else◌, ◌==◌,
}
use containers_storage.Prelude.GoMap
use containers_storage.Prelude.GoMap.{GoMap}
use containers_storage.Prelude.Heap.{Heap, write, alloc}
use containers_storage.Prelude.Exec.{no_such_lock, ok, fails, panics, Exec}

-- lockCtr: its mutex, and the number of waiters
pub record LockCtr : Type 0 where
  pub held : Bool
  pub waiters : ℕ

pub record Locker : Type 0 where
  pub heap : Heap LockCtr
  pub locks : GoMap ℕ

abbrev pub inc : LockCtr → LockCtr
inc l = record l { waiters = l.waiters + 1 }

abbrev pub dec : LockCtr → LockCtr
dec l = record l { waiters = l.waiters - 1 }

-- The first part of Lock, up to l.mu.Unlock(): the lock that the caller waits for.
unfoldable pub arrive : Str → Locker → ℕ × Locker
arrive name l = elim (GoMap.get l.locks name) [
  | some r ↦ (r, record l { heap = write l.heap r (inc (l.heap.cell r)) })
  | none ↦ (
    l.heap.next,
    record {
      heap = alloc l.heap (record { held = false; waiters = 1 });
      locks = GoMap.put l.locks name l.heap.next;
    },
  )
]

-- The rest of Lock: `none` where the caller has to wait for the holder.
unfoldable pub acquire : ℕ → Locker → Option Locker
acquire r l =
    if (l.heap.cell r).held
    then none
    else some (record l { heap = write l.heap r (record (dec (l.heap.cell r)) { held = true }) })

-- A lock that nobody waits for leaves the table.
unfoldable pub kept_locks : Str → ℕ → Locker → GoMap ℕ
kept_locks name r l = if (l.heap.cell r).waiters == 0 then GoMap.del l.locks name else l.locks

-- Unlocking a mutex that is not locked is a fatal error of the runtime.
unfoldable pub unlock_at : Str → Option ℕ → Exec Locker (Unit {0})
unfolding kept_locks
unlock_at name none l = (fails no_such_lock, l)
unlock_at name (some r) l =
    if (l.heap.cell r).held
    then (
      ok tt,
      record {
        heap = write l.heap r (record (l.heap.cell r) { held = false });
        locks = kept_locks name r l;
      },
    )
    else (panics, record l { locks = kept_locks name r l })

unfoldable pub unlock : Str → Exec Locker (Unit {0})
unfolding unlock_at
unlock name l = unlock_at name (GoMap.get l.locks name) l

-- New, on a heap that has no object yet.
abbrev pub new_locker : LockCtr → Locker
new_locker c = record { heap = record { next = 0; cell = λ q. c }; locks = GoMap.empty }
