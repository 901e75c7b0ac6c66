-- ===== src/Containers/Invariant/Alloc.antt =====
-- The objects that Load of containers.go allocates for the decoded records.
use containers_storage.Prelude.{
  ℕ, ◌<◌, ◌≤◌, ◌≡◌, refl, Bool, true, ◌&&◌, List, [], ◌∷◌, map, arith, Str, str_eq_iff, elem,
  distinct, holds, distinct_refs,
}
use containers_storage.Prelude.Heap.{Heap, alloc}
use containers_storage.Containers.{Container}
use containers_storage.Containers.Load.{alloc_all}

abbrev pub ids_of : List Container → List Str
ids_of cs = map (λ c. c.id) cs

-- No record names itself twice.
unfoldable pub names_distinct : List Container → Bool
names_distinct [] = true
names_distinct (c ∷ cs) = distinct c.names && names_distinct cs

next-le-alloc_all : (h : Heap Container) (cs : List Container) → h.next ≤ (alloc_all h cs).0.next
unfolding alloc_all
next-le-alloc_all h [] = omega arith
next-le-alloc_all h (c ∷ cs) = omega (arith, next-le-alloc_all (alloc h c) cs)

pub alloc_all-range :
    (h : Heap Container) (cs : List Container) (q : ℕ)
    → holds q (alloc_all h cs).1 ≡ true
    → (h.next ≤ q) × (q < (alloc_all h cs).0.next)
unfolding alloc_all holds
alloc_all-range h [] q e = cc
alloc_all-range h (c ∷ cs) q e =
    ground (arith, alloc_all-range (alloc h c) cs q, next-le-alloc_all (alloc h c) cs)

pub cell-alloc_all :
    (h : Heap Container) (cs : List Container) (q : ℕ)
    → q < h.next
    → (alloc_all h cs).0.cell q ≡ h.cell q
unfolding alloc_all
cell-alloc_all h [] q e = refl
cell-alloc_all h (c ∷ cs) q e = ground (arith, cell-alloc_all (alloc h c) cs q)

pub distinct_refs-alloc_all :
    (h : Heap Container) (cs : List Container) → distinct_refs (alloc_all h cs).1 ≡ true
unfolding alloc_all distinct_refs
distinct_refs-alloc_all h [] = refl
distinct_refs-alloc_all h (c ∷ cs) =
    ground (arith, distinct_refs-alloc_all (alloc h c) cs, alloc_all-range (alloc h c) cs h.next)

-- The record at the first new object.
first :
    (h : Heap Container) (c : Container) (cs : List Container)
    → (alloc_all (alloc h c) cs).0.cell h.next ≡ c
first h c cs = ground (arith, cell-alloc_all (alloc h c) cs h.next)

pub ids-alloc_all :
    (h : Heap Container) (cs : List Container)
    → map (λ r. ((alloc_all h cs).0.cell r).id) (alloc_all h cs).1 ≡ ids_of cs
unfolding alloc_all
ids-alloc_all h [] = refl
ids-alloc_all h (c ∷ cs) = cc (first h c cs, ids-alloc_all (alloc h c) cs)

elem-ids :
    (h : Heap Container) (cs : List Container) (q : ℕ)
    → holds q (alloc_all h cs).1 ≡ true
    → elem ((alloc_all h cs).0.cell q).id (ids_of cs) ≡ true
unfolding alloc_all holds elem
elem-ids h [] q e = cc
elem-ids h (c ∷ cs) q e =
    ground (arith, elem-ids (alloc h c) cs q, first h c cs, str_eq_iff c.id c.id)

-- Different ids on disk tell the new objects apart.
pub ids_differ :
    (h : Heap Container) (cs : List Container) (q r : ℕ)
    → distinct (ids_of cs) ≡ true
    → holds q (alloc_all h cs).1 ≡ true
    → holds r (alloc_all h cs).1 ≡ true
    → ((alloc_all h cs).0.cell q).id ≡ ((alloc_all h cs).0.cell r).id
    → q ≡ r
unfolding alloc_all holds distinct
ids_differ h [] q r d e f same = cc
ids_differ h (c ∷ cs) q r d e f same = ground (
  arith,
  ids_differ (alloc h c) cs q r,
  elem-ids (alloc h c) cs q,
  elem-ids (alloc h c) cs r,
  first h c cs,
)

pub names_distinct-cell :
    (h : Heap Container) (cs : List Container) (q : ℕ)
    → names_distinct cs ≡ true
    → holds q (alloc_all h cs).1 ≡ true
    → distinct ((alloc_all h cs).0.cell q).names ≡ true
unfolding alloc_all holds names_distinct
names_distinct-cell h [] q d e = cc
names_distinct-cell h (c ∷ cs) q d e =
    ground (arith, names_distinct-cell (alloc h c) cs q, first h c cs)
