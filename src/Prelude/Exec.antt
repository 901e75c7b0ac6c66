-- ===== src/Prelude/Exec.antt =====
-- Methods that mutate their receiver and may return an error or panic. What was written before an
-- error stays written, so the state comes back beside the error too.
use mathlib.Core.Path.{◌≡◌, refl}
use mathlib.Core.Logic.{◌⊎◌, inl, inr, ◌≢◌}
use mathlib.Core.Bool.{Bool, true, false}
use mathlib.Core.Option.{Option, none, some}

-- errors.go, with one value for each other error that the code makes
pub data Error : Type 0 where
  container_unknown image_unknown layer_unknown : Error
  duplicate_id duplicate_name duplicate_image_names duplicate_layer_names : Error
  invalid_big_data_name size_unknown digest_unknown : Error
  store_is_read_only not_locked invalid_digest : Error
  illegal_char empty_prefix ambiguous_prefix not_exist already_exists no_such_id : Error
  no_such_lock malformed unavailable out_of_range no_such_file shifting_not_enabled : Error
  os_error : Error

pub data Result {ℓ} (A : Type ℓ) : Type ℓ where
  ok : A → Result A
  fails : Error → Result A
  panics : Result A
  -- the fuel of an unbounded loop ran out
  diverges : Result A

abbrev pub Exec {ℓ} : Type ℓ → Type ℓ → Type ℓ
Exec S A = S → Result A × S

module _ {ℓ} {S A : Type ℓ} where
  abbrev pub pure : A → Exec S A
  pure a s = (ok a, s)

  abbrev pub fail : Error → Exec S A
  fail e s = (fails e, s)

  abbrev pub or_fail : Option A → Error → Exec S A
  or_fail none e s = (fails e, s)
  or_fail (some a) e s = (ok a, s)

module _ {ℓ} {S A B : Type ℓ} where
  abbrev pub continue : Result A → (A → Exec S B) → Exec S B
  continue (ok a) f s = f a s
  continue (fails e) f s = (fails e, s)
  continue panics f s = (panics, s)
  continue diverges f s = (diverges, s)

  infixl 5 ◌>>=◌ ◌>>◌
  abbrev pub ◌>>=◌ : Exec S A → (A → Exec S B) → Exec S B
  ◌>>=◌ m f s = continue (m s).0 f (m s).1

  abbrev pub ◌>>◌ : Exec S A → Exec S B → Exec S B
  m >> n = m >>= λ _. n

module _ {ℓ κ} {S A B : Type ℓ} (P : S → Type κ) where
  -- A condition on the state that the rest keeps holds after whatever comes first, errors included.
  pub continue_keeps :
      (r : Result A) (f : A → Exec S B) (s : S)
      → P s
      → ((a : A) → r ≡ ok a → P (f a s).1)
      → P (continue r f s).1
  continue_keeps (ok a) f s h k = k a refl
  continue_keeps (fails e) f s h k = h
  continue_keeps panics f s h k = h
  continue_keeps diverges f s h k = h

module _ {ℓ} {A : Type ℓ} where
  pub Result-cases : (r : Result A) → ((a : A) × (r ≡ ok a)) ⊎ ((a : A) → r ≢ ok a)
  Result-cases (ok a) = inl (a, refl)
  Result-cases (fails e) = inr (λ a h. cc)
  Result-cases panics = inr (λ a h. cc)
  Result-cases diverges = inr (λ a h. cc)

-- An action keeps a condition on the state, whatever it returns.
pub record Keeps {ℓ κ} {S A : Type ℓ} (P : S → Type κ) (m : Exec S A) : Type (ℓ ⊔ κ) where
  pub at : (s : S) → P s → P (m s).1

module _ {ℓ κ} {S A B : Type ℓ} {P : S → Type κ} where
  pub Keeps-bind :
      (m : Exec S A) (f : A → Exec S B) → Keeps P m → ((a : A) → Keeps P (f a)) → Keeps P (m >>= f)
  Keeps-bind m f km kf = record {
    at = λ s h.
        continue_keeps P (m s).0 f (m s).1 (km.at s h) (λ a _. (kf a).at (m s).1 (km.at s h));
  }

module _ {ℓ} {S A B : Type ℓ} where
  -- What succeeded as a whole succeeded in its first part.
  pub continue-ok :
      (r : Result A) (f : A → Exec S B) (s : S) {b : B}
      → (continue r f s).0 ≡ ok b
      → (a : A) × (r ≡ ok a) × ((f a s).0 ≡ ok b)
  continue-ok (ok a) f s h = (a, refl, h)
  continue-ok (fails e) f s h = cc
  continue-ok panics f s h = cc
  continue-ok diverges f s h = cc

-- What is asked for where an action answers true.
unfoldable pub WhereTrue : Result Bool → Type 0 → Type 0
WhereTrue (ok true) P = P
WhereTrue (ok false) P = Unit
WhereTrue (fails e) P = Unit
WhereTrue panics P = Unit
WhereTrue diverges P = Unit
