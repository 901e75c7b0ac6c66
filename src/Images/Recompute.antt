-- ===== src/Images/Recompute.antt =====
-- What recomputeDigests of images.go computes.
use containers_storage.Prelude.{
  ◌≡◌, refl, sym, ap, ◌∙◌, is_some, inl, inr, Bool, true, false, not, ◌&&◌, ◌||◌, some, List, [],
  ◌∷◌, ◌++◌, arith, Str, str_eq, str_eq_iff, elem, distinct, Bool-cases, Option-cases,
}
use containers_storage.Prelude.GoMap.{GoMap}
use containers_storage.Env.{Env}
use containers_storage.Images.{Image}
use containers_storage.Images.Digests.{
  big_data_name_is_manifest, add_digest, add_digests, fixed_digest, first_of, recompute_digests,
}

-- A digest of an entry whose name is that of a manifest.
unfoldable pub of_manifest : Str → List (Str × Str) → Bool
of_manifest d [] = false
of_manifest d ((name, e) ∷ entries) =
    (big_data_name_is_manifest name && str_eq e d) || of_manifest d entries

-- Every entry of a manifest is valid.
unfoldable pub manifests_valid : Env → List (Str × Str) → Bool
manifests_valid env [] = true
manifests_valid env ((name, d) ∷ entries) =
    (not (big_data_name_is_manifest name) || env.valid_digest d) && manifests_valid env entries

elem-append : (d e : Str) (ds : List Str) → elem d (ds ++ e ∷ []) ≡ elem d ds || str_eq e d
unfolding elem
elem-append d e [] = ground (arith, str_eq_iff e d)
elem-append d e (x ∷ xs) = ground (arith, elem-append d e xs, str_eq_iff x d)

distinct-append :
    (e : Str) (ds : List Str) → distinct (ds ++ e ∷ []) ≡ distinct ds && not (elem e ds)
unfolding distinct elem
distinct-append e [] = ground arith
distinct-append e (x ∷ xs) =
    ground (arith, distinct-append e xs, elem-append x e xs, str_eq_iff x e, str_eq_iff e x)

module _ (env : Env) where
  -- The digests that were there stay, and those of manifests join them.
  add_digests-elem :
      (entries : List (Str × Str)) (found ds : List Str) (d : Str)
      → add_digests env entries found ≡ some ds
      → elem d ds ≡ elem d found || of_manifest d entries
  unfolding add_digests add_digest of_manifest
  add_digests-elem [] found ds d h = ground arith
  add_digests-elem ((name, e) ∷ entries) found ds d h =
      elim (Bool-cases (big_data_name_is_manifest name)) [
        | inl is ↦ elim (Bool-cases (env.valid_digest e)) [
          | inl good ↦ elim (Bool-cases (elem e found)) [
            | inl known ↦ ground (arith, add_digests-elem entries found ds d, str_eq_iff e d)
            | inr new ↦
                ground
                  (arith, add_digests-elem entries (found ++ e ∷ []) ds d, elem-append d e found)
          ]
          | inr bad ↦ ground arith
        ]
        | inr isnt ↦ ground (arith, add_digests-elem entries found ds d)
      ]

  add_digests-distinct :
      (entries : List (Str × Str)) (found ds : List Str)
      → add_digests env entries found ≡ some ds
      → distinct found ≡ true
      → distinct ds ≡ true
  unfolding add_digests add_digest
  add_digests-distinct [] found ds h e = ground arith
  add_digests-distinct ((name, d) ∷ entries) found ds h e = ground (
    arith,
    add_digests-distinct entries found ds,
    add_digests-distinct entries (found ++ d ∷ []) ds,
    distinct-append d found,
  )

  add_digests-valid :
      (entries : List (Str × Str)) (found ds : List Str)
      → add_digests env entries found ≡ some ds
      → ((d : Str) → elem d found ≡ true → env.valid_digest d ≡ true)
      → (d : Str) → elem d ds ≡ true
      → env.valid_digest d ≡ true
  unfolding add_digests add_digest
  add_digests-valid [] found ds h good d e = ground (arith, good d)
  add_digests-valid ((name, x) ∷ entries) found ds h good d e =
      elim (Bool-cases (env.valid_digest x)) [
        | inl valid ↦ ground (
          arith,
          add_digests-valid entries found ds _ good d,
          add_digests-valid entries (found ++ x ∷ []) ds _
              (λ c m. ground (arith, good c, elem-append c x found, str_eq_iff x c)) d,
        )
        | inr invalid ↦ ground (arith, add_digests-valid entries found ds _ good d)
      ]

  -- The error is that of a digest that is not valid.
  is_some-add_digests :
      (entries : List (Str × Str)) (found : List Str)
      → is_some (add_digests env entries found) ≡ manifests_valid env entries
  unfolding add_digests add_digest manifests_valid
  is_some-add_digests [] found = refl
  is_some-add_digests ((name, d) ∷ entries) found =
      ground
        (arith, is_some-add_digests entries found, is_some-add_digests entries (found ++ d ∷ []))

  is_some-fixed_digest :
      (d : Str) → is_some (fixed_digest env d) ≡ str_eq d [] || env.valid_digest d
  unfolding fixed_digest
  is_some-fixed_digest d = ground arith

  -- recomputeDigests succeeds exactly where the digest set by hand, if there is one, and those of all
  -- manifests are valid.
  pub recompute_succeeds :
      (order : GoMap Str → List (Str × Str)) (i : Image)
      → is_some (recompute_digests env order i)
        ≡ (str_eq i.digest [] || env.valid_digest i.digest)
          && manifests_valid env (order i.big_data_digests)
  unfolding recompute_digests
  recompute_succeeds order i = elim (Option-cases (fixed_digest env i.digest)) [
    | inl e ↦ ground (arith, e, is_some-fixed_digest i.digest)
    | inr (found, e) ↦ elim (Option-cases (add_digests env (order i.big_data_digests) found)) [
      | inl f ↦ ground (
        arith,
        e,
        f,
        is_some-fixed_digest i.digest,
        is_some-add_digests (order i.big_data_digests) found,
      )
      | inr (ds, f) ↦ ground (
        arith,
        e,
        f,
        is_some-fixed_digest i.digest,
        is_some-add_digests (order i.big_data_digests) found,
      )
    ]
  ]

  fixed_digest_found :
      (c : Str) (found : List Str)
      → fixed_digest env c ≡ some found
      → (distinct found ≡ true)
        × ((d : Str) → elem d found ≡ not (str_eq c []) && str_eq c d)
        × ((d : Str) → elem d found ≡ true → env.valid_digest d ≡ true)
  unfolding fixed_digest distinct elem
  fixed_digest_found c found h =
      (ground arith, λ d. ground arith, λ d e. ground (arith, str_eq_iff c d))

  -- Where recomputeDigests succeeds, the digests of the image are the one set by hand, if there is one,
  -- and those of its manifests, each once, and all are valid. A digest set by hand is kept; without one,
  -- the digest is the first of them, and stays empty only if there is none.
  pub recomputed :
      (order : GoMap Str → List (Str × Str)) (i j : Image)
      → recompute_digests env order i ≡ some j
      → ((d : Str)
          → elem d j.digests
            ≡ (not (str_eq i.digest []) && str_eq i.digest d)
              || of_manifest d (order i.big_data_digests))
        × (distinct j.digests ≡ true)
        × ((d : Str) → elem d j.digests ≡ true → env.valid_digest d ≡ true)
        × (j.digest ≡ first_of i.digest j.digests)
  unfolding recompute_digests
  recomputed order i j h = elim (Option-cases (fixed_digest env i.digest)) [
    | inl e ↦ ground (arith, e)
    | inr (found, e) ↦ elim (Option-cases (add_digests env (order i.big_data_digests) found)) [
      | inl f ↦ ground (arith, e, f)
      | inr (ds, f) ↦
          let (once, members, good) = fixed_digest_found i.digest found e in
          let same : record i { digest = first_of i.digest ds; digests = ds } ≡ j =
            ground (arith, e, f) in
          rw (sym same) (
            (λ d.
                add_digests-elem (order i.big_data_digests) found ds d f
                ∙ ap (λ b. b || of_manifest d (order i.big_data_digests)) (members d)),
            add_digests-distinct (order i.big_data_digests) found ds f once,
            add_digests-valid (order i.big_data_digests) found ds f good,
            refl,
          )
    ]
  ]
