-- ===== src/Lockfile/Processes.antt =====
-- Processes that share a lock file by Lock, RLock and Unlock, and the kernel's lock between them.
use containers_storage.Prelude.{
  ℕ, ◌+◌, ◌-◌, ◌<◌, ◌≡◌, Bool, true, false, Option, none, some, Str, if◌then◌else◌, ◌==◌,
}
use containers_storage.Prelude.Exec.{Result, ok, fails, panics, diverges}
use containers_storage.Lockfile.{
  LockType, read_lock, write_lock, Lockfile, RwMutex, lock_mutex, granted, take_lock, unlock,
  create_locker_for_path,
}

-- A process: its lock, what it has of the kernel, and how many of its goroutines are past the mutex, and
-- how many hold the lock, for reading and for writing.
pub record Process : Type 0 where
  pub lock : Lockfile
  pub kernel : Option LockType
  pub entering_read : ℕ
  pub entering_write : ℕ
  pub reading : ℕ
  pub writing : ℕ

abbrev pub started : Bool → Str → Process
started ro id = record {
  lock = create_locker_for_path ro id;
  kernel = none;
  entering_read = 0;
  entering_write = 0;
  reading = 0;
  writing = 0;
}

abbrev pub entered : LockType → RwMutex → Process → Process
entered read_lock m p = record p {
  lock = record p.lock { rw_mutex = m };
  entering_read = p.entering_read + 1;
}
entered write_lock m p = record p {
  lock = record p.lock { rw_mutex = m };
  entering_write = p.entering_write + 1;
}

abbrev pub asked : LockType → Process → Option LockType
asked t p = if p.lock.counter == 0 then some t else p.kernel

abbrev pub taken : LockType → Lockfile → Process → Process
taken read_lock l p = record p {
  kernel = asked read_lock p;
  lock = l;
  entering_read = p.entering_read - 1;
  reading = p.reading + 1;
}
taken write_lock l p = record p {
  kernel = asked write_lock p;
  lock = l;
  entering_write = p.entering_write - 1;
  writing = p.writing + 1;
}

abbrev pub closed : Result Bool → Option LockType → Option LockType
closed (ok true) k = none
closed (ok false) k = k
closed (fails e) k = k
closed panics k = k
closed diverges k = k

abbrev pub left : LockType → Process → Process
left read_lock p = record p {
  kernel = closed (unlock p.lock).0 p.kernel;
  lock = (unlock p.lock).1;
  reading = p.reading - 1;
}
left write_lock p = record p {
  kernel = closed (unlock p.lock).0 p.kernel;
  lock = (unlock p.lock).1;
  writing = p.writing - 1;
}

abbrev pub entering : LockType → Process → ℕ
entering read_lock p = p.entering_read
entering write_lock p = p.entering_write

abbrev pub holding : LockType → Process → ℕ
holding read_lock p = p.reading
holding write_lock p = p.writing

-- The kernel grants a lock beside another: readers go together.
abbrev pub compatible : LockType → Option LockType → Bool
compatible t none = true
compatible read_lock (some read_lock) = true
compatible write_lock (some read_lock) = false
compatible t (some write_lock) = false

abbrev pub System : Type 0
System = ℕ → Process

abbrev pub set_process : ℕ → Process → System → System
set_process i p s = λ j. if i == j then p else s j

pub data Reachable : System → Type 0 where
  starts : (ro : ℕ → Bool) (id : ℕ → Str) → Reachable (λ i. started (ro i) (id i))
  enters :
      (i : ℕ) (t : LockType) (m : RwMutex) (s : System)
      → Reachable s
      → lock_mutex t false (s i).lock.rw_mutex ≡ some m
      → Reachable (set_process i (entered t m (s i)) s)
  takes :
      (i : ℕ) (t : LockType) (l : Lockfile) (s : System)
      → Reachable s
      → 0 < entering t (s i)
      → ((j : ℕ) → (i == j) ≡ false → (s i).lock.counter ≡ 0 → compatible t (s j).kernel ≡ true)
      → take_lock t false granted (s i).lock ≡ some (ok l)
      → Reachable (set_process i (taken t l (s i)) s)
  leaves :
      (i : ℕ) (t : LockType) (s : System)
      → Reachable s
      → 0 < holding t (s i)
      → Reachable (set_process i (left t (s i)) s)
