-- ===== src/Prelude/GoMap.antt =====
-- Go's `map[string]V`. A map that is nil reads as the empty one; the order of `range` is a
-- parameter of the code that iterates.
use mathlib.Core.Path.{◌≡◌, refl}
use mathlib.Core.List.{List, [], ◌∷◌}
use mathlib.Core.Option.{Option, none, some}
use native.Mathlib.Omega.{arith}
use containers_storage.Prelude.Tests.{if◌then◌else◌, is_some}
use containers_storage.Prelude.Text.{Str, str_eq, str_eq_iff, elem}

abbrev pub GoMap {ℓ} : Type ℓ → Type ℓ
GoMap V = List (Str × V)

module _ {ℓ} {V : Type ℓ} where
  abbrev pub empty : GoMap V
  empty = []

  -- m[k]
  unfoldable pub get : GoMap V → Str → Option V
  get [] k = none
  get ((j, v) ∷ m) k = if str_eq j k then some v else get m k

  -- delete(m, k)
  unfoldable pub del : GoMap V → Str → GoMap V
  del [] k = []
  del ((j, v) ∷ m) k = let rest = del m k in if str_eq j k then rest else (j, v) ∷ rest

  -- m[k] = v
  unfoldable pub put : GoMap V → Str → V → GoMap V
  unfolding del
  put m k v = (k, v) ∷ del m k

  unfoldable pub keys : GoMap V → List Str
  keys [] = []
  keys ((j, v) ∷ m) = j ∷ keys m

  pub get-empty : (k : Str) → get empty k ≡ none
  unfolding get
  get-empty k = refl

  pub get-del : (m : GoMap V) (k j : Str) → get (del m k) j ≡ (if str_eq k j then none else get m j)
  unfolding get del
  get-del [] k j = ground arith
  get-del ((i, v) ∷ m) k j =
      ground (arith, get-del m k j, str_eq_iff i k, str_eq_iff i j, str_eq_iff k j)

  pub get-put :
      (m : GoMap V) (k : Str) (v : V) (j : Str)
      → get (put m k v) j ≡ (if str_eq k j then some v else get m j)
  unfolding get put
  get-put m k v j = ground (arith, get-del m k j)

  pub elem-keys : (m : GoMap V) (k : Str) → elem k (keys m) ≡ is_some (get m k)
  unfolding elem keys get
  elem-keys [] k = refl
  elem-keys ((j, v) ∷ m) k = ground (arith, elem-keys m k)

pub ruleset map_laws = (get-empty, get-del, get-put)
