-- ===== src/Lockfile/Exclusion.antt =====
-- Who holds a lock file of pkg/lockfile/lockfile_unix.go together, in all processes.
use containers_storage.Prelude.{
  ℕ, ◌+◌, ◌<◌, ◌≡◌, refl, Bool, true, false, Option, none, some, Str, ltb, inl, inr, if◌then◌else◌,
  ◌==◌, arith, Bool-cases,
}
use containers_storage.Prelude.Exec.{ok}
use containers_storage.Lockfile.{
  LockType, read_lock, write_lock, Lockfile, RwMutex, lock_mutex, granted, take_lock, unlock,
  is_locked, create_locker_for_path,
}
use containers_storage.Lockfile.Processes.{
  Process, System, Reachable, starts, enters, takes, leaves, started, entered, taken, left,
  entering, holding, compatible, set_process,
}

-- What the fields of a lock say of the goroutines of its process, and what the process has of the kernel.
pub record Counted (p : Process) : Type 0 where
  pub writers : p.entering_write + p.writing ≡ (if p.lock.rw_mutex.writer then 1 else 0)
  pub readers : p.lock.rw_mutex.readers ≡ p.entering_read + p.reading
  pub apart : p.lock.rw_mutex.writer ≡ true → p.lock.rw_mutex.readers ≡ 0
  pub counted : p.lock.counter ≡ p.reading + p.writing
  pub locked : p.lock.locked ≡ ltb 0 p.lock.counter
  pub not_recursive : p.lock.recursive ≡ false
  pub for_reading : 0 < p.reading → p.lock.locktype ≡ read_lock
  pub for_writing : 0 < p.writing → p.lock.locktype ≡ write_lock
  pub kernel : p.kernel ≡ (if p.lock.counter == 0 then none else some p.lock.locktype)

started-Counted : (ro : Bool) (id : Str) → Counted (started ro id)
unfolding create_locker_for_path
started-Counted ro id = ground arith

entered-Counted :
    (t : LockType) (m : RwMutex) (p : Process)
    → Counted p
    → lock_mutex t false p.lock.rw_mutex ≡ some m
    → Counted (entered t m p)
unfolding lock_mutex
entered-Counted read_lock m p v e = ground arith
entered-Counted write_lock m p v e = ground arith

taken-Counted :
    (t : LockType) (l : Lockfile) (p : Process)
    → Counted p
    → 0 < entering t p
    → take_lock t false granted p.lock ≡ some (ok l)
    → Counted (taken t l p)
unfolding take_lock
taken-Counted read_lock l p v h e = ground arith
taken-Counted write_lock l p v h e = ground arith

left-Counted : (t : LockType) (p : Process) → Counted p → 0 < holding t p → Counted (left t p)
unfolding unlock
left-Counted read_lock p v h = ground arith
left-Counted write_lock p v h = ground arith

-- No Unlock of a holder ends the program.
unlock_works :
    (t : LockType) (p : Process)
    → Counted p
    → 0 < holding t p
    → (unlock p.lock).0 ≡ ok (p.lock.counter == 1)
unfolding unlock
unlock_works read_lock p v h = ground arith
unlock_works write_lock p v h = ground arith

-- A process that has the kernel's lock for writing has it alone.
abbrev pub Alone : Option LockType → Option LockType → Type 0
Alone k l = (k ≡ some write_lock → l ≡ none) × (l ≡ some write_lock → k ≡ none)

entered_kernel : (t : LockType) (m : RwMutex) (p : Process) → (entered t m p).kernel ≡ p.kernel
entered_kernel read_lock m p = refl
entered_kernel write_lock m p = refl

taken-Alone :
    (t : LockType) (l : Lockfile) (p : Process) (k : Option LockType)
    → Alone p.kernel k
    → (p.lock.counter ≡ 0 → compatible t k ≡ true)
    → Alone (taken t l p).kernel k
taken-Alone t l p none a c = ground arith
taken-Alone read_lock l p (some read_lock) a c = ground (arith, c)
taken-Alone write_lock l p (some read_lock) a c = ground (arith, c)
taken-Alone read_lock l p (some write_lock) a c = ground (arith, c)
taken-Alone write_lock l p (some write_lock) a c = ground (arith, c)

left-Alone :
    (t : LockType) (p : Process) (k : Option LockType)
    → Counted p
    → 0 < holding t p
    → Alone p.kernel k
    → Alone (left t p).kernel k
left-Alone read_lock p k v h a = rw (unlock_works read_lock p v h) (ground arith)
left-Alone write_lock p k v h a = rw (unlock_works write_lock p v h) (ground arith)

pub record IsSafe (s : System) : Type 0 where
  pub each : (i : ℕ) → Counted (s i)
  pub between : (i j : ℕ) → (i == j) ≡ false → Alone (s i).kernel (s j).kernel

-- A process takes a step that keeps its count and is alone beside every other.
set_process-IsSafe :
    (i : ℕ) (p : Process) (s : System)
    → IsSafe s
    → Counted p
    → ((j : ℕ) → (i == j) ≡ false → Alone p.kernel (s j).kernel)
    → IsSafe (set_process i p s)
set_process-IsSafe i p s v c a = record {
  each = λ j. elim (Bool-cases (i == j)) [ inl e ↦ rw e c | inr e ↦ rw e (v.each j) ];
  between = λ j k d. elim (Bool-cases (i == j)) [
    | inl e ↦ elim (Bool-cases (i == k)) [ inl f ↦ ground arith | inr f ↦ rw (e, f) (a k f) ]
    | inr e ↦ elim (Bool-cases (i == k)) [
      | inl f ↦ rw (e, f) ((a j e).1, (a j e).0)
      | inr f ↦ rw (e, f) (v.between j k d)
    ]
  ];
}

Reachable-IsSafe : (s : System) → Reachable s → IsSafe s
Reachable-IsSafe s (starts ro id) = record {
  each = λ i. started-Counted (ro i) (id i);
  between = λ i j d. ground arith;
}
Reachable-IsSafe s (enters i t m u r e) =
    let v = Reachable-IsSafe u r in
    set_process-IsSafe i (entered t m (u i)) u v (entered-Counted t m (u i) (v.each i) e)
      (λ j d. rw (entered_kernel t m (u i)) (v.between i j d))
Reachable-IsSafe s (takes i t l u r h c e) =
    let v = Reachable-IsSafe u r in
    set_process-IsSafe i (taken t l (u i)) u v (taken-Counted t l (u i) (v.each i) h e)
      (λ j d. taken-Alone t l (u i) (u j).kernel (v.between i j d) (c j d))
Reachable-IsSafe s (leaves i t u r h) =
    let v = Reachable-IsSafe u r in
    set_process-IsSafe i (left t (u i)) u v (left-Counted t (u i) (v.each i) h)
      (λ j d. left-Alone t (u i) (u j).kernel (v.each i) h (v.between i j d))

others_idle :
    (p q : Process)
    → Counted p
    → Counted q
    → Alone p.kernel q.kernel
    → 0 < p.writing
    → q.reading + q.writing ≡ 0
others_idle p q v w a h = ground arith

-- In every state that processes reach by Lock, RLock and Unlock, one goroutine at most holds the lock for
-- writing. While it does, Locked is true in its process, nobody reads there, nobody holds the lock in any
-- other process, and its Unlock succeeds.
pub writer_excludes :
    (s : System) (i j : ℕ)
    → Reachable s
    → 0 < (s i).writing
    → (i == j) ≡ false
    → ((s i).writing ≡ 1)
      × ((s i).reading ≡ 0)
      × (is_locked (s i).lock ≡ true)
      × ((s j).reading + (s j).writing ≡ 0)
      × ((unlock (s i).lock).0 ≡ ok true)
unfolding is_locked
writer_excludes s i j r h d =
    let v = Reachable-IsSafe s r in
    let p = v.each i in
    (
      ground (arith, p),
      ground (arith, p),
      ground (arith, p),
      others_idle (s i) (s j) p (v.each j) (v.between i j d) h,
      ground (arith, p, unlock_works write_lock (s i) p h),
    )
