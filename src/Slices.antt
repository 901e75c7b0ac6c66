-- ===== src/Slices.antt =====
-- Cutting an element out of a slice of pointers, as the Delete methods of containers.go, images.go and
-- layers.go do it.
use containers_storage.Prelude.{
  ℕ, zero, suc, ◌+◌, ◌-◌, ◌<◌, ◌≡◌, refl, ap, true, not, ◌&&◌, Option, none, some, List, [], ◌∷◌,
  ◌++◌, arith, length, take, drop, remove_at, holds, distinct_refs, if◌then◌else◌, ◌==◌, Bool-cases,
  inl, inr, ==_iff,
}
use native.Mathlib.Numerals.{add-one}

-- The last position goes by a shorter slice, any other by append.
unfoldable pub cut : List ℕ → ℕ → List ℕ
cut rs i = if i == length rs - 1 then take (length rs - 1) rs else take i rs ++ drop (i + 1) rs

unfoldable pub cut_found : List ℕ → Option ℕ → List ℕ
unfolding cut
cut_found rs none = rs
cut_found rs (some i) = cut rs i

take-drop : (rs : List ℕ) (i : ℕ) → i < length rs → take i rs ++ drop (suc i) rs ≡ remove_at i rs
unfolding remove_at
take-drop [] i h = elim h [ ]
take-drop (x ∷ xs) zero h = refl
take-drop (x ∷ xs) (suc i) h = ap (◌∷◌ x) (take-drop xs i (omega arith))

take_last : (rs : List ℕ) → take (length rs - 1) rs ≡ remove_at (length rs - 1) rs
unfolding remove_at
take_last [] = refl
take_last (x ∷ []) = refl
take_last (x ∷ y ∷ xs) =
    let e : suc (suc (length xs)) - 1 ≡ suc (suc (length xs) - 1) = omega arith in
    rw e (ap (◌∷◌ x) (take_last (y ∷ xs)))

-- Both ways leave the slice without that position.
pub cut-eq-remove_at : (rs : List ℕ) (i : ℕ) → i < length rs → cut rs i ≡ remove_at i rs
unfolding cut
cut-eq-remove_at rs i h = elim (Bool-cases (i == length rs - 1)) [
  | inl e ↦ rw (e, (==_iff i (length rs - 1)).0 e) (take_last rs)
  | inr e ↦ rw (e, add-one i) (take-drop rs i h)
]

-- The slice without a pointer.
unfoldable pub remove : ℕ → List ℕ → List ℕ
remove r [] = []
remove r (x ∷ xs) = let rest = remove r xs in if x == r then xs else x ∷ rest

pub holds-remove :
    (r q : ℕ) (xs : List ℕ)
    → distinct_refs xs ≡ true
    → holds q (remove r xs) ≡ holds q xs && not (r == q)
unfolding remove holds distinct_refs
holds-remove r q [] d = refl
holds-remove r q (x ∷ xs) d = ground (arith, holds-remove r q xs)

pub distinct_refs-remove :
    (r : ℕ) (xs : List ℕ) → distinct_refs xs ≡ true → distinct_refs (remove r xs) ≡ true
unfolding remove distinct_refs
distinct_refs-remove r [] d = refl
distinct_refs-remove r (x ∷ xs) d = ground (arith, distinct_refs-remove r xs, holds-remove r x xs)
