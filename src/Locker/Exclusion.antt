-- ===== src/Locker/Exclusion.antt =====
-- At most one caller holds the lock of a name of pkg/locker/locker.go.
use containers_storage.Prelude.{
  ℕ, ◌-◌, ◌<◌, ◌≡◌, refl, true, false, some, Str, str_eq_iff, ◌==◌, arith, Bool-cases, inl, inr,
  subst, sym, ap,
}
use containers_storage.Prelude.GoMap
use containers_storage.Prelude.Heap.{write}
use containers_storage.Prelude.Exec.{Result, ok}
use containers_storage.Locker.{Locker, dec, acquire, kept_locks, unlock_at, unlock}
use containers_storage.Locker.System.{
  System, at, acquired, unlocked, Reachable, starts, arrives, acquires, unlocks, Counted,
  arrived-Counted,
}

acquired-Counted :
    (name : Str) (r : ℕ) (l : Locker) (s : System)
    → Counted s
    → 0 < s.waiting name r
    → acquire r s.locker ≡ some l
    → Counted (acquired name r l s)
unfolding acquire
acquired-Counted name r l s v h e = elim (Bool-cases (s.locker.heap.cell r).held) [
  | inl held ↦ ground (arith, e, held)
  | inr free ↦
      let l' : Locker = record s.locker {
        heap = write s.locker.heap r (record (dec (s.locker.heap.cell r)) { held = true });
      } in
      let same : l' ≡ l = ground (arith, e, free) in
      let found = v.current name r (omega (arith, h)) in
      subst (λ x. Counted (acquired name r x s)) same
        (record {
          current = λ n q k. ground (arith, v.current n q, found, str_eq_iff name n);
          counted = λ n q k.
              ground (
                arith,
                v.counted n q,
                v.counted name r,
                found,
                v.apart n name q,
                str_eq_iff name n,
              );
          exclusive = λ n q k. ground (
            arith,
            free,
            v.exclusive n q,
            v.exclusive name r,
            found,
            v.apart n name q,
            str_eq_iff name n,
          );
          apart = λ m n q k j. v.apart m n q k j;
          allocated = λ n q k. v.allocated n q k;
          in_use = λ n q k. ground (arith, v.in_use n q, str_eq_iff name n);
        })
]

module _ (name : Str) (r : ℕ) (s : System) (v : Counted s) (h : 0 < s.holding name r) where
  found : GoMap.get s.locker.locks name ≡ some r
  found = v.current name r (omega (arith, h))

  held : (s.locker.heap.cell r).held ≡ true
  held = ground (arith, h, v.exclusive name r found)

  abbrev released : Locker
  released = record {
    heap = write s.locker.heap r (record (s.locker.heap.cell r) { held = false });
    locks = kept_locks name r s.locker;
  }

  unlock-held : unlock name s.locker ≡ (ok tt, released)
  unfolding unlock unlock_at
  unlock-held = rw found (rw held refl)

  released-Counted :
      Counted (record s { locker = released; holding = at s.holding name r (s.holding name r - 1) })
  unfolding kept_locks
  released-Counted = elim (Bool-cases ((s.locker.heap.cell r).waiters == 0)) [
    | inl alone ↦ rw alone (record {
      current = λ n q k. ground (
        arith,
        alone,
        found,
        v.current n q,
        v.counted name r found,
        v.exclusive name r found,
        str_eq_iff name n,
        GoMap.get-del s.locker.locks name n,
      );
      counted = λ n q k. ground (
        arith,
        found,
        v.counted n q,
        v.apart n name q,
        str_eq_iff name n,
        GoMap.get-del s.locker.locks name n,
      );
      exclusive = λ n q k. ground (
        arith,
        found,
        v.exclusive n q,
        v.apart n name q,
        str_eq_iff name n,
        GoMap.get-del s.locker.locks name n,
      );
      apart = λ m n q k j. ground (
        arith,
        v.apart m n q,
        GoMap.get-del s.locker.locks name n,
        GoMap.get-del s.locker.locks name m,
      );
      allocated = λ n q k. ground (arith, v.allocated n q, GoMap.get-del s.locker.locks name n);
      in_use = λ n q k.
          ground (arith, v.in_use n q, str_eq_iff name n, GoMap.get-del s.locker.locks name n);
    })
    | inr waited ↦ rw waited (record {
      current = λ n q k. ground (arith, found, v.current n q, str_eq_iff name n);
      counted = λ n q k. ground (arith, found, v.counted n q, v.apart n name q, str_eq_iff name n);
      exclusive = λ n q k. ground (
        arith,
        found,
        held,
        v.exclusive n q,
        v.exclusive name r found,
        v.apart n name q,
        str_eq_iff name n,
      );
      apart = λ m n q k j. v.apart m n q k j;
      allocated = λ n q k. v.allocated n q k;
      in_use = λ n q k.
          ground (arith, waited, found, v.in_use n q, v.counted name r found, str_eq_iff name n);
    })
  ]

  unlocked-Counted : Counted (unlocked name r s)
  unlocked-Counted =
      subst
        (λ l.
          Counted (record s { locker = l; holding = at s.holding name r (s.holding name r - 1) }))
        (ap (λ (x : Result (Unit {0}) × Locker). x.1) (sym unlock-held)) released-Counted

Reachable-Counted : (s : System) → Reachable s → Counted s
Reachable-Counted s (starts c) = record {
  current = λ n q k. ground arith;
  counted = λ n q k. ground (arith, GoMap.get-empty {V = ℕ} n);
  exclusive = λ n q k. ground (arith, GoMap.get-empty {V = ℕ} n);
  apart = λ m n q k j. ground (arith, GoMap.get-empty {V = ℕ} n);
  allocated = λ n q k. ground (arith, GoMap.get-empty {V = ℕ} n);
  in_use = λ n q k. ground (arith, GoMap.get-empty {V = ℕ} n);
}
Reachable-Counted s (arrives name t c) = arrived-Counted name t (Reachable-Counted t c)
Reachable-Counted s (acquires name r l t c h e) =
    acquired-Counted name r l t (Reachable-Counted t c) h e
Reachable-Counted s (unlocks name r t c h) = unlocked-Counted name r t (Reachable-Counted t c) h

-- In every state that callers reach who unlock only what they hold, callers that hold the lock of a name
-- hold the same object, at most one of them does, and its Unlock succeeds.
pub mutual_exclusion :
    (s : System) (n : Str) (q r : ℕ)
    → Reachable s
    → 0 < s.holding n q
    → 0 < s.holding n r
    → (q ≡ r) × (s.holding n r ≡ 1) × ((unlock n s.locker).0 ≡ ok tt)
mutual_exclusion s n q r c h k =
    let v = Reachable-Counted s c in
    let found_r = v.current n r (omega (arith, k)) in
    let found_q = v.current n q (omega (arith, h)) in
    (
      ground arith,
      ground (arith, v.exclusive n r found_r),
      ap (λ (x : Result (Unit {0}) × Locker). x.0) (unlock-held n r s v k),
    )
