-- ===== src/UserNs/Size.antt =====
-- The size that userns.go chooses for an automatic user namespace.
use containers_storage.Prelude.{
  ℕ, ◌≡◌, ◌≤◌, ◌⊎◌, inl, inr, Option, none, some, ltb, if◌then◌else◌, subst, Bool-cases, arith,
}
use containers_storage.Prelude.Exec.{Result, ok, fails, panics, diverges}
use containers_storage.UserNs.{at_most, or_larger, auto_size}

-- The number of ids that were found for the image; none without an image.
abbrev pub found : Option (Result ℕ) → ℕ
found (some (ok n)) = n
found (some (fails e)) = 0
found (some panics) = 0
found (some diverges) = 0
found none = 0

at_most-ok : (max size n : ℕ) → at_most max size ≡ ok n → (size ≡ n) × ((max ≡ 0) ⊎ (n ≤ max))
at_most-ok max size n h = elim (Bool-cases (ltb 0 max)) [
  | inl set ↦ (ground arith, inr (ground arith))
  | inr unset ↦ (ground arith, inl (ground arith))
]

abbrev start_of : ℕ → ℕ → ℕ
start_of initial min = or_larger (if ltb 0 initial then initial else 1) min

start_bounds :
    (initial min : ℕ)
    → let start = start_of initial min in
      ((1 ≤ start) × (initial ≤ start) × (min ≤ start))
      × ((start ≡ 1) ⊎ (start ≡ initial) ⊎ (start ≡ min))
start_bounds initial min = (
  (ground arith, ground arith, ground arith),
  elim (Bool-cases (ltb initial min)) [
    | inl less ↦ elim (Bool-cases (ltb 1 min)) [
      | inl more ↦ inr (inr (ground arith))
      | inr none_more ↦ inl (ground arith)
    ]
    | inr enough ↦ elim (Bool-cases (ltb 0 initial)) [
      | inl given ↦ inr (inl (ground arith))
      | inr absent ↦ inl (ground arith)
    ]
  ],
)

-- The larger of that and what the image needs.
larger_bounds :
    (start needed : ℕ)
    → let size = or_larger start needed in
      ((start ≤ size) × (needed ≤ size)) × ((size ≡ start) ⊎ (size ≡ needed))
larger_bounds start needed = (
  (ground arith, ground arith),
  elim (Bool-cases (ltb start needed)) [
    | inl less ↦ inr (ground arith)
    | inr enough ↦ inl (ground arith)
  ],
)

-- Without a size that was asked for, with an image and without one, a size that is chosen is at least
-- 1, the initial size, the minimum of the store and what was found for the image, if there is one, and
-- within the maximum of the store, if there is one. It is one of these four.
pub auto_size_bounds :
    (initial min max n : ℕ) (image : Option (Result ℕ))
    → auto_size 0 initial min max image ≡ ok n
    → ((1 ≤ n) × (initial ≤ n) × (min ≤ n) × (found image ≤ n))
      × ((max ≡ 0) ⊎ (n ≤ max))
      × ((n ≡ 1) ⊎ (n ≡ initial) ⊎ (n ≡ min) ⊎ (n ≡ found image))
unfolding auto_size
auto_size_bounds initial min max n none h =
    let ((one, first, least), cases) = start_bounds initial min in
    let (e, fits) = at_most-ok max (start_of initial min) n h in
    subst
      (λ k.
        (((1 ≤ k) × (initial ≤ k) × (min ≤ k) × (0 ≤ k))
          × (max ≡ 0 ⊎ n ≤ max)
          × ((k ≡ 1) ⊎ (k ≡ initial) ⊎ (k ≡ min) ⊎ (k ≡ 0))))
      e ((one, first, least, omega arith), fits, widen cases)
  where
    widen : {A B C D : Type 0} → A ⊎ B ⊎ C → A ⊎ B ⊎ C ⊎ D
    widen (inl a) = inl a
    widen (inr (inl b)) = inr (inl b)
    widen (inr (inr c)) = inr (inr (inl c))
auto_size_bounds initial min max n (some (ok needed)) h =
    let start = start_of initial min in
    let ((one, first, least), cases) = start_bounds initial min in
    let ((from, enough), which) = larger_bounds start needed in
    let (e, fits) = at_most-ok max (or_larger start needed) n h in
    ((omega arith, omega arith, omega arith, omega arith), fits, pick cases which e)
  where
    pick :
        {s : ℕ}
        → (s ≡ 1) ⊎ (s ≡ initial) ⊎ (s ≡ min)
        → ((or_larger s needed ≡ s) ⊎ (or_larger s needed ≡ needed))
        → or_larger s needed ≡ n
        → (n ≡ 1) ⊎ (n ≡ initial) ⊎ (n ≡ min) ⊎ (n ≡ needed)
    pick (inl a) (inl b) e = inl (omega arith)
    pick (inr (inl a)) (inl b) e = inr (inl (omega arith))
    pick (inr (inr a)) (inl b) e = inr (inr (inl (omega arith)))
    pick c (inr b) e = inr (inr (inr (omega arith)))
auto_size_bounds initial min max n (some (fails e)) h = ground arith
auto_size_bounds initial min max n (some panics) h = ground arith
auto_size_bounds initial min max n (some diverges) h = ground arith
