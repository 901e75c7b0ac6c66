-- ===== src/Locker/System.antt =====
-- pkg/locker/locker.go with any number of callers: what they have found and hold, step by step.
use containers_storage.Prelude.{
  ℕ, ◌+◌, ◌-◌, ◌<◌, ◌≡◌, ◌&&◌, some, Str, str_eq, str_eq_iff, if◌then◌else◌, ◌==◌, arith,
  Option-cases, inl, inr,
}
use containers_storage.Prelude.GoMap
use containers_storage.Locker.{Locker, LockCtr, new_locker, arrive, acquire, unlock}

-- How many callers wait for, and how many hold, the lock object `r` that they found under a name.
pub record System : Type 0 where
  pub locker : Locker
  pub waiting : Str → ℕ → ℕ
  pub holding : Str → ℕ → ℕ

abbrev pub at : (Str → ℕ → ℕ) → Str → ℕ → ℕ → Str → ℕ → ℕ
at f name r n = λ m q. if str_eq name m && r == q then n else f m q

abbrev pub arrived : Str → System → System
arrived name s =
    let (r, l) = arrive name s.locker in
    record s { locker = l; waiting = at s.waiting name r (s.waiting name r + 1) }

abbrev pub acquired : Str → ℕ → Locker → System → System
acquired name r l s = record {
  locker = l;
  waiting = at s.waiting name r (s.waiting name r - 1);
  holding = at s.holding name r (s.holding name r + 1);
}

abbrev pub unlocked : Str → ℕ → System → System
unlocked name r s = record s {
  locker = (unlock name s.locker).1;
  holding = at s.holding name r (s.holding name r - 1);
}

-- Callers unlock what they hold.
pub data Reachable : System → Type 0 where
  starts :
      (c : LockCtr)
      → Reachable (record { locker = new_locker c; waiting = λ n r. 0; holding = λ n r. 0 })
  arrives : (name : Str) (s : System) → Reachable s → Reachable (arrived name s)
  acquires :
      (name : Str) (r : ℕ) (l : Locker) (s : System)
      → Reachable s
      → 0 < s.waiting name r
      → acquire r s.locker ≡ some l
      → Reachable (acquired name r l s)
  unlocks :
      (name : Str) (r : ℕ) (s : System)
      → Reachable s
      → 0 < s.holding name r
      → Reachable (unlocked name r s)

pub record Counted (s : System) : Type 0 where
  -- whoever waits for or holds a lock has the one in the table
  pub current :
      (n : Str) (r : ℕ) → 0 < s.waiting n r + s.holding n r → GoMap.get s.locker.locks n ≡ some r
  pub counted :
      (n : Str) (r : ℕ)
      → GoMap.get s.locker.locks n ≡ some r
      → (s.locker.heap.cell r).waiters ≡ s.waiting n r
  pub exclusive :
      (n : Str) (r : ℕ)
      → GoMap.get s.locker.locks n ≡ some r
      → s.holding n r ≡ (if (s.locker.heap.cell r).held then 1 else 0)
  -- names do not share a lock
  pub apart :
      (m n : Str) (r : ℕ)
      → GoMap.get s.locker.locks m ≡ some r
      → GoMap.get s.locker.locks n ≡ some r
      → m ≡ n
  pub allocated : (n : Str) (r : ℕ) → GoMap.get s.locker.locks n ≡ some r → r < s.locker.heap.next
  -- a lock in the table is waited for or held
  pub in_use :
      (n : Str) (r : ℕ) → GoMap.get s.locker.locks n ≡ some r → 0 < s.waiting n r + s.holding n r

pub arrived-Counted : (name : Str) (s : System) → Counted s → Counted (arrived name s)
unfolding arrive
arrived-Counted name s v = elim (Option-cases (GoMap.get s.locker.locks name)) [
  | inr (r, e) ↦ record {
    current = λ n q h. ground (arith, e, v.current n q, v.counted n q, str_eq_iff name n);
    counted = λ n q h. ground (arith, e, v.counted n q, v.apart n name q, str_eq_iff name n);
    exclusive = λ n q h. ground (arith, e, v.exclusive n q, v.apart n name q, str_eq_iff name n);
    apart = λ m n q h k. ground (arith, e, v.apart m n q);
    allocated = λ n q h. ground (arith, e, v.allocated n q);
    in_use = λ n q h. ground (arith, e, v.in_use n q, str_eq_iff name n);
  }
  | inl e ↦ record {
    current = λ n q h. ground (
      arith,
      e,
      v.current n q,
      str_eq_iff name n,
      GoMap.get-put s.locker.locks name s.locker.heap.next n,
    );
    counted = λ n q h. ground (
      arith,
      e,
      v.current n q,
      v.counted n q,
      v.allocated n q,
      str_eq_iff name n,
      GoMap.get-put s.locker.locks name s.locker.heap.next n,
    );
    exclusive = λ n q h. ground (
      arith,
      e,
      v.current n q,
      v.exclusive n q,
      v.allocated n q,
      str_eq_iff name n,
      GoMap.get-put s.locker.locks name s.locker.heap.next n,
    );
    apart = λ m n q h k. ground (
      arith,
      v.apart m n q,
      v.allocated m q,
      v.allocated n q,
      str_eq_iff name n,
      str_eq_iff name m,
      GoMap.get-put s.locker.locks name s.locker.heap.next n,
      GoMap.get-put s.locker.locks name s.locker.heap.next m,
    );
    allocated = λ n q h.
        ground (arith, v.allocated n q, GoMap.get-put s.locker.locks name s.locker.heap.next n);
    in_use = λ n q h. ground (
      arith,
      e,
      v.in_use n q,
      str_eq_iff name n,
      GoMap.get-put s.locker.locks name s.locker.heap.next n,
    );
  }
]
