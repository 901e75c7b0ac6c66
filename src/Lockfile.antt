-- ===== src/Lockfile.antt =====
-- pkg/lockfile/lockfile_unix.go: a lock that goroutines of one process share by a mutex, and processes by
-- a lock of the kernel on a file, whose content is the id of the last writer. The mutex on the fields
-- makes each function below one step; a wait is the lack of a step.
pub mod Processes
pub mod Exclusion
pub mod LastWriter
use containers_storage.Prelude.{
  ℕ, ◌+◌, ◌-◌, Bool, true, false, not, ◌&&◌, ◌||◌, Option, none, some, List, [], Str, str_eq,
  length, take, drop, ltb, ◌++◌, ◌==◌, if◌then◌else◌,
}
use containers_storage.Prelude.Exec.{os_error, Result, ok, fails, panics, Exec}

pub data LockType : Type 0 where
  read_lock write_lock : LockType

-- sync.RWMutex: the goroutines that hold it for reading, and whether one holds it for writing
pub record RwMutex : Type 0 where
  pub readers : ℕ
  pub writer : Bool

pub record Lockfile : Type 0 where
  pub rw_mutex : RwMutex
  pub counter : ℕ
  pub lw : Str
  pub locktype : LockType
  pub locked : Bool
  pub ro : Bool
  pub recursive : Bool

-- The fields of a new lock, whose last writer is a random id.
unfoldable pub create_locker_for_path : Bool → Str → Lockfile
create_locker_for_path ro id = record {
  rw_mutex = record { readers = 0; writer = false };
  counter = 0;
  lw = id;
  locktype = if ro then read_lock else write_lock;
  locked = false;
  ro = ro;
  recursive = false;
}

-- The acquisition of the mutex that `lock` begins with; `none` where the caller has to wait.
unfoldable pub lock_mutex : LockType → Bool → RwMutex → Option RwMutex
lock_mutex write_lock false m =
    if m.writer || ltb 0 m.readers then none else some (record m { writer = true })
lock_mutex write_lock true m =
    if m.writer then none else some (record m { readers = m.readers + 1 })
lock_mutex read_lock recursive m =
    if m.writer then none else some (record m { readers = m.readers + 1 })

-- What the kernel says to the first holder of a process: open and fcntl.
pub data Grant : Type 0 where
  granted waits unopened : Grant

-- The fields after the lock was taken.
unfoldable pub hold : LockType → Bool → Lockfile → Lockfile
hold t recursive l = record l {
  locktype = t;
  locked = true;
  recursive = recursive;
  counter = l.counter + 1;
}

-- The rest of `lock`. The kernel is only asked where nobody in the process holds the lock.
unfoldable pub take_lock : LockType → Bool → Grant → Lockfile → Option (Result Lockfile)
unfolding hold
take_lock t recursive g l =
    if l.counter == 0
    then elim g [ granted ↦ some (ok (hold t recursive l)) | waits ↦ none | unopened ↦ some panics ]
    else some (ok (hold t recursive l))

-- What Lock, RecursiveLock and RLock ask for; `none` is the panic of Lock on a lock for reading.
pub data Request : Type 0 where
  lock recursive_lock rlock : Request

unfoldable pub requested : Request → Bool → Option (LockType × Bool)
requested lock ro = if ro then none else some (write_lock, false)
requested recursive_lock ro = some (if ro then (read_lock, false) else (write_lock, true))
requested rlock ro = some (read_lock, false)

abbrev pub is_read : LockType → Bool
is_read read_lock = true
is_read write_lock = false

-- rwMutex.RUnlock and rwMutex.Unlock, which end the program on a mutex that is not held so.
unfoldable pub release : Bool → RwMutex → Option RwMutex
release true m = if m.readers == 0 then none else some (record m { readers = m.readers - 1 })
release false m = if m.writer then some (record m { writer = false }) else none

-- Unlock returns whether it closed the file, which gives the lock of the kernel back.
unfoldable pub unlock : Exec Lockfile Bool
unfolding release
unlock l =
    if not l.locked || l.counter == 0
    then (panics, l)
    else elim (release (is_read l.locktype || l.recursive) l.rw_mutex) [
      | none ↦ (panics, l)
      | some m ↦ (
        ok (l.counter == 1),
        record l { counter = l.counter - 1; locked = not (l.counter == 1); rw_mutex = m },
      )
    ]

-- Locked: for writing.
unfoldable pub is_locked : Lockfile → Bool
is_locked l = l.locked && not (is_read l.locktype)

unfoldable pub is_read_write : Lockfile → Bool
is_read_write l = not l.ro

-- What pwrite does with the id: all of it, a first part, or nothing for an error.
pub data Written : Type 0 where
  full refused : Written
  short : ℕ → Written

-- The file after pwrite at its start.
abbrev pub overwritten : Str → Str → Str
overwritten id content = id ++ drop (length id) content

-- Touch on the lock and the content of the file, with a new random id.
unfoldable pub touch : Str → Written → Exec (Lockfile × Str) (Unit {0})
unfolding is_locked
touch id w (l, content) =
    let l' : Lockfile = record l { lw = id } in
    if is_locked l
    then elim w [
      | full ↦ (ok tt, (l', overwritten id content))
      | refused ↦ (fails os_error, (l', content))
      | short n ↦ (fails os_error, (l', overwritten (take n id) content))
    ]
    else (panics, (l, content))

-- Modified, where pread succeeds: it reads as many bytes as the last known id has.
unfoldable pub modified : Str → Exec Lockfile Bool
modified content l =
    if not l.locked
    then (panics, l)
    else if ltb (length content) (length l.lw)
    then (ok true, l)
    else (
      ok (not (str_eq (take (length l.lw) content) l.lw)),
      record l { lw = take (length l.lw) content },
    )
