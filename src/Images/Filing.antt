-- ===== src/Images/Filing.antt =====
-- Which images the table of digests of images.go leads to.
use containers_storage.Prelude.{
  ℕ, ◌≤◌, ◌≡◌, refl, inl, inr, Bool, not, ◌&&◌, ◌||◌, List, [], ◌∷◌, ◌++◌, arith, Str, str_eq,
  str_eq_iff, elem, length, holds, ◌==◌, if◌then◌else◌, Bool-cases,
}
use containers_storage.Prelude.GoMap
use containers_storage.Prelude.GoMap.{GoMap}
use containers_storage.Images.Digests.{
  image_slice_without_value, or_nil, file_digests, refile_digests, prune_digest, unfile_digests,
}

-- The table leads from a digest to an image.
abbrev pub leads : GoMap (List ℕ) → Str → ℕ → Bool
leads bydigest d q = holds q (or_nil (GoMap.get bydigest d))

pub holds-append : (q r : ℕ) (rs : List ℕ) → holds q (rs ++ r ∷ []) ≡ holds q rs || (r == q)
unfolding holds
holds-append q r [] = ground arith
holds-append q r (x ∷ xs) = ground (arith, holds-append q r xs)

pub holds-without :
    (q r : ℕ) (rs : List ℕ) → holds q (image_slice_without_value rs r) ≡ holds q rs && not (r == q)
unfolding holds image_slice_without_value
holds-without q r [] = refl
holds-without q r (x ∷ xs) = ground (arith, holds-without q r xs)

length-without : (r : ℕ) (rs : List ℕ) → length (image_slice_without_value rs r) ≤ length rs
unfolding image_slice_without_value
length-without r [] = omega arith
length-without r (x ∷ xs) = ground (arith, length-without r xs)

-- A list gets shorter exactly if the image was in it.
pub without_same :
    (r : ℕ) (rs : List ℕ)
    → (length rs == length (image_slice_without_value rs r)) ≡ not (holds r rs)
unfolding holds image_slice_without_value
without_same r [] = refl
without_same r (x ∷ xs) = ground (arith, without_same r xs, length-without r xs)

pub leads-prune :
    (m : GoMap (List ℕ)) (d e : Str) (rs : List ℕ) (q : ℕ)
    → leads (prune_digest m d rs) e q ≡ (if str_eq d e then holds q rs else leads m e q)
unfolding holds
leads-prune m d e [] q = ground (arith, GoMap.get-del m d e)
leads-prune m d e (x ∷ xs) q = ground (arith, GoMap.get-put m d (x ∷ xs) e)

pub leads-file_digests :
    (m : GoMap (List ℕ)) (ds : List Str) (r : ℕ) (d : Str) (q : ℕ)
    → leads (file_digests m ds r) d q ≡ leads m d q || (elem d ds && (r == q))
unfolding file_digests elem
leads-file_digests m [] r d q = ground arith
leads-file_digests m (e ∷ es) r d q =
    let list = or_nil (GoMap.get m e) in
    let m' = GoMap.put m e (list ++ r ∷ []) in
    rw (leads-file_digests m' es r d q)
      (ground (arith, GoMap.get-put m e (list ++ r ∷ []) d, holds-append q r list, str_eq_iff e d))

pub leads-unfile_digests :
    (m : GoMap (List ℕ)) (ds : List Str) (r : ℕ) (d : Str) (q : ℕ)
    → leads (unfile_digests m ds r) d q ≡ leads m d q && not (elem d ds && (r == q))
unfolding unfile_digests elem
leads-unfile_digests m [] r d q = ground arith
leads-unfile_digests m (e ∷ es) r d q =
    let left = image_slice_without_value (or_nil (GoMap.get m e)) r in
    rw (leads-unfile_digests (prune_digest m e left) es r d q, leads-prune m e d left q)
      (ground (arith, holds-without q r (or_nil (GoMap.get m e)), str_eq_iff e d))

pub leads-refile_digests :
    (m : GoMap (List ℕ)) (ds : List Str) (r : ℕ) (d : Str) (q : ℕ)
    → leads (refile_digests m ds r) d q ≡ leads m d q || (elem d ds && (r == q))
unfolding refile_digests elem
leads-refile_digests m [] r d q = ground arith
leads-refile_digests m (e ∷ es) r d q =
    let list = or_nil (GoMap.get m e) in
    elim (Bool-cases (length list == length (image_slice_without_value list r))) [
      | inl new ↦
          rw (new, leads-refile_digests (GoMap.put m e (list ++ r ∷ [])) es r d q)
            (ground
              (arith, GoMap.get-put m e (list ++ r ∷ []) d, holds-append q r list, str_eq_iff e d))
      | inr old ↦
          rw (old, leads-refile_digests m es r d q)
            (ground (arith, without_same r list, str_eq_iff e d))
    ]
