-- ===== src/Directory/Alloc.antt =====
-- The objects that are allocated for the records of a file.
use containers_storage.Prelude.{
  ℕ, ◌<◌, ◌≤◌, ◌≡◌, refl, Bool, true, ◌&&◌, List, [], ◌∷◌, map, arith, Str, str_eq_iff, elem,
  distinct, holds, distinct_refs,
}
use containers_storage.Prelude.Heap.{Heap, alloc}
use containers_storage.Directory.{alloc_items}

module _ {A : Type 0} where
  next-le-alloc_items : (h : Heap A) (cs : List A) → h.next ≤ (alloc_items h cs).0.next
  unfolding alloc_items
  next-le-alloc_items h [] = omega arith
  next-le-alloc_items h (c ∷ cs) = omega (arith, next-le-alloc_items (alloc h c) cs)

  pub alloc_items-range :
      (h : Heap A) (cs : List A) (q : ℕ)
      → holds q (alloc_items h cs).1 ≡ true
      → (h.next ≤ q) × (q < (alloc_items h cs).0.next)
  unfolding alloc_items holds
  alloc_items-range h [] q e = cc
  alloc_items-range h (c ∷ cs) q e =
      ground (arith, alloc_items-range (alloc h c) cs q, next-le-alloc_items (alloc h c) cs)

  pub cell-alloc_items :
      (h : Heap A) (cs : List A) (q : ℕ) → q < h.next → (alloc_items h cs).0.cell q ≡ h.cell q
  unfolding alloc_items
  cell-alloc_items h [] q e = refl
  cell-alloc_items h (c ∷ cs) q e = ground (arith, cell-alloc_items (alloc h c) cs q)

  pub distinct_refs-alloc_items :
      (h : Heap A) (cs : List A) → distinct_refs (alloc_items h cs).1 ≡ true
  unfolding alloc_items distinct_refs
  distinct_refs-alloc_items h [] = refl
  distinct_refs-alloc_items h (c ∷ cs) =
      ground
        (arith, distinct_refs-alloc_items (alloc h c) cs, alloc_items-range (alloc h c) cs h.next)

  -- The record at the first new object.
  pub first : (h : Heap A) (c : A) (cs : List A) → (alloc_items (alloc h c) cs).0.cell h.next ≡ c
  first h c cs = ground (arith, cell-alloc_items (alloc h c) cs h.next)

module _ {A : Type 0} (id_of : A → Str) where
  abbrev pub ids_in : List A → List Str
  ids_in cs = map id_of cs

  pub ids-alloc_items :
      (h : Heap A) (cs : List A)
      → map (λ r. id_of ((alloc_items h cs).0.cell r)) (alloc_items h cs).1 ≡ ids_in cs
  unfolding alloc_items
  ids-alloc_items h [] = refl
  ids-alloc_items h (c ∷ cs) = cc (first h c cs, ids-alloc_items (alloc h c) cs)

  pub elem-ids :
      (h : Heap A) (cs : List A) (q : ℕ)
      → holds q (alloc_items h cs).1 ≡ true
      → elem (id_of ((alloc_items h cs).0.cell q)) (ids_in cs) ≡ true
  unfolding alloc_items holds elem
  elem-ids h [] q e = cc
  elem-ids h (c ∷ cs) q e =
      ground (arith, elem-ids (alloc h c) cs q, first h c cs, str_eq_iff (id_of c) (id_of c))

  -- Different ids on disk tell the new objects apart.
  pub ids_differ :
      (h : Heap A) (cs : List A) (q r : ℕ)
      → distinct (ids_in cs) ≡ true
      → holds q (alloc_items h cs).1 ≡ true
      → holds r (alloc_items h cs).1 ≡ true
      → id_of ((alloc_items h cs).0.cell q) ≡ id_of ((alloc_items h cs).0.cell r)
      → q ≡ r
  unfolding alloc_items holds distinct
  ids_differ h [] q r d e f same = cc
  ids_differ h (c ∷ cs) q r d e f same = ground (
    arith,
    ids_differ (alloc h c) cs q r,
    elem-ids (alloc h c) cs q,
    elem-ids (alloc h c) cs r,
    first h c cs,
  )

module _ {A : Type 0} (names_of : A → List Str) where
  -- No record names itself twice.
  unfoldable pub names_distinct : List A → Bool
  names_distinct [] = true
  names_distinct (c ∷ cs) = distinct (names_of c) && names_distinct cs

  pub names_distinct-cell :
      (h : Heap A) (cs : List A) (q : ℕ)
      → names_distinct cs ≡ true
      → holds q (alloc_items h cs).1 ≡ true
      → distinct (names_of ((alloc_items h cs).0.cell q)) ≡ true
  unfolding alloc_items holds names_distinct
  names_distinct-cell h [] q d e = cc
  names_distinct-cell h (c ∷ cs) q d e =
      ground (arith, names_distinct-cell (alloc h c) cs q, first h c cs)
