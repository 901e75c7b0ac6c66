-- ===== src/Prelude/Lists.antt =====
-- Lists measured and indexed by native numbers, and slices of references.
use Prim.Native.Nat.{ℕ, zero, suc, ◌+◌}
use mathlib.Core.Path.{◌≡◌, refl}
use mathlib.Core.Bool.{Bool, true, false, ◌||◌}
use mathlib.Core.List.{List, [], ◌∷◌, ◌++◌}
use native.Mathlib.Omega.{arith}
use containers_storage.Prelude.Tests.{◌==◌, if◌then◌else◌}

module _ {ℓ} {A : Type ℓ} where
  abbrev pub length : List A → ℕ
  length [] = 0
  length (x ∷ xs) = suc (length xs)

  pub length-append : (xs ys : List A) → length (xs ++ ys) ≡ length xs + length ys
  length-append [] ys = omega arith
  length-append (x ∷ xs) ys = omega (arith, length-append xs ys)

  abbrev pub take : ℕ → List A → List A
  take zero xs = []
  take (suc n) [] = []
  take (suc n) (x ∷ xs) = x ∷ take n xs

  abbrev pub drop : ℕ → List A → List A
  drop zero xs = xs
  drop (suc n) [] = []
  drop (suc n) (x ∷ xs) = drop n xs

  -- append(xs[:i], xs[i+1:]...)
  unfoldable pub remove_at : ℕ → List A → List A
  remove_at i [] = []
  remove_at zero (x ∷ xs) = xs
  remove_at (suc i) (x ∷ xs) = x ∷ remove_at i xs

-- A slice of pointers holds a pointer.
unfoldable pub holds : ℕ → List ℕ → Bool
holds r [] = false
holds r (x ∷ xs) = x == r || holds r xs

pub holds-append : (r : ℕ) (xs ys : List ℕ) → holds r (xs ++ ys) ≡ holds r xs || holds r ys
unfolding holds
holds-append r [] ys = refl
holds-append r (x ∷ xs) ys = ground (arith, holds-append r xs ys)

-- No pointer stands twice.
unfoldable pub distinct_refs : List ℕ → Bool
distinct_refs [] = true
distinct_refs (x ∷ xs) = if holds x xs then false else distinct_refs xs

pub distinct_refs-snoc :
    (xs : List ℕ) (r : ℕ)
    → distinct_refs xs ≡ true
    → holds r xs ≡ false
    → distinct_refs (xs ++ r ∷ []) ≡ true
unfolding distinct_refs holds
distinct_refs-snoc [] r d h = refl
distinct_refs-snoc (x ∷ xs) r d h =
    ground (arith, distinct_refs-snoc xs r, holds-append x xs (r ∷ []))

pub holds-snoc : (r : ℕ) (xs : List ℕ) (x : ℕ) → holds r (xs ++ x ∷ []) ≡ holds r xs || x == r
unfolding holds
holds-snoc r xs x = ground (arith, holds-append r xs (x ∷ []))
