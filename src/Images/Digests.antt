-- ===== src/Images/Digests.antt =====
-- The digests that images.go finds an image by: recomputeDigests, and the entries of the image in the
-- table of digests.
use containers_storage.Prelude.{
  ℕ, Bool, not, Option, none, some, List, [], ◌∷◌, ◌++◌, Str, codes, str_eq, elem, length,
  is_prefix, ◌==◌, if◌then◌else◌,
}
use containers_storage.Prelude.GoMap
use containers_storage.Prelude.GoMap.{GoMap}
use containers_storage.Env.{Env}
use containers_storage.Images.{Image}

unfoldable pub big_data_name_is_manifest : Str → Bool
big_data_name_is_manifest name = is_prefix (codes "manifest") name

-- A digest that is not set is the first one that was found.
abbrev pub first_of : Str → List Str → Str
first_of d [] = d
first_of d (e ∷ es) = if str_eq d [] then e else d

module _ (env : Env) where
  -- One entry of BigDataDigests; `none` is the error of a digest that is not valid. The slice of the
  -- digests so far has the elements of the map `digests`.
  unfoldable pub add_digest : Str → Str → List Str → Option (List Str)
  unfolding big_data_name_is_manifest
  add_digest name d found =
      if not (big_data_name_is_manifest name)
      then some found
      else if not (env.valid_digest d)
      then none
      else if elem d found
      then some found
      else some (found ++ d ∷ [])

  unfoldable pub add_digests : List (Str × Str) → List Str → Option (List Str)
  unfolding add_digest
  add_digests [] found = some found
  add_digests ((name, d) ∷ entries) found = elim (add_digest name d found) [
    | none ↦ none
    | some more ↦ add_digests entries more
  ]

  -- The digest that was set by hand comes first.
  unfoldable pub fixed_digest : Str → Option (List Str)
  fixed_digest d =
      if str_eq d [] then some [] else if env.valid_digest d then some (d ∷ []) else none

  -- `order` is the order in which `range` yields the entries of a map.
  unfoldable pub recompute_digests : (GoMap Str → List (Str × Str)) → Image → Option Image
  unfolding fixed_digest add_digests
  recompute_digests order i = elim (fixed_digest i.digest) [
    | none ↦ none
    | some found ↦ elim (add_digests (order i.big_data_digests) found) [
      | none ↦ none
      | some ds ↦ some (record i { digest = first_of i.digest ds; digests = ds })
    ]
  ]

unfoldable pub image_slice_without_value : List ℕ → ℕ → List ℕ
image_slice_without_value [] r = []
image_slice_without_value (v ∷ slice) r =
    let rest = image_slice_without_value slice r in if v == r then rest else v ∷ rest

-- A missing key reads as the empty slice.
abbrev pub or_nil : Option (List ℕ) → List ℕ
or_nil none = []
or_nil (some rs) = rs

-- r.bydigest[digest] = append(r.bydigest[digest], image)
unfoldable pub file_digests : GoMap (List ℕ) → List Str → ℕ → GoMap (List ℕ)
file_digests bydigest [] r = bydigest
file_digests bydigest (d ∷ ds) r =
    file_digests (GoMap.put bydigest d (or_nil (GoMap.get bydigest d) ++ r ∷ [])) ds r

-- As in SetBigData: an image that is in the list is not added again.
unfoldable pub refile_digests : GoMap (List ℕ) → List Str → ℕ → GoMap (List ℕ)
unfolding image_slice_without_value
refile_digests bydigest [] r = bydigest
refile_digests bydigest (d ∷ ds) r =
    let list = or_nil (GoMap.get bydigest d) in
    let added = GoMap.put bydigest d (list ++ r ∷ []) in
    refile_digests
      (if length list == length (image_slice_without_value list r) then added else bydigest) ds r

abbrev pub prune_digest : GoMap (List ℕ) → Str → List ℕ → GoMap (List ℕ)
prune_digest bydigest d [] = GoMap.del bydigest d
prune_digest bydigest d (q ∷ qs) = GoMap.put bydigest d (q ∷ qs)

-- The image leaves the lists of its digests; an empty list leaves the table.
unfoldable pub unfile_digests : GoMap (List ℕ) → List Str → ℕ → GoMap (List ℕ)
unfolding image_slice_without_value
unfile_digests bydigest [] r = bydigest
unfile_digests bydigest (d ∷ ds) r =
    unfile_digests
      (prune_digest bydigest d (image_slice_without_value (or_nil (GoMap.get bydigest d)) r)) ds r
