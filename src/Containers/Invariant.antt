-- ===== src/Containers/Invariant.antt =====
-- When the tables of a container store agree.
pub mod Enter
pub mod Reachable
pub mod Rebuild
pub mod Alloc
pub mod Load
pub mod Fields
pub mod Names
pub mod Delete
pub mod Create
use containers_storage.Prelude.{
  ℕ, ◌<◌, ◌≡◌, ap, Bool, true, false, ◌&&◌, ◌||◌, Option, none, some, List, [], ◌∷◌, arith, Str,
  str_eq, str_eq_iff, elem, holds, distinct_refs, is_some, if◌then◌else◌,
}
use containers_storage.Prelude.GoMap
use containers_storage.Prelude.GoMap.{GoMap}
use containers_storage.TruncIndex.Prefixes.{proper}
use containers_storage.Containers.{Container, ContainerStore, Platform}

pub record Inv {p : Platform} (s : ContainerStore p) : Type 0 where
  -- byid holds the listed records, each under its own id
  pub ids :
      (k : Str) (r : ℕ)
      → GoMap.get s.byid k ≡ some r
      → ((s.heap.cell r).id ≡ k) × (holds r s.containers ≡ true)
  pub listed : (r : ℕ) → holds r s.containers ≡ true → GoMap.get s.byid (s.heap.cell r).id ≡ some r
  pub once : distinct_refs s.containers ≡ true
  -- every listed record was allocated
  pub allocated : (r : ℕ) → holds r s.containers ≡ true → r < s.heap.next
  -- byname holds the names of the listed records, and no other
  pub named :
      (n : Str) (r : ℕ)
      → GoMap.get s.byname n ≡ some r
      → (holds r s.containers ≡ true) × (elem n (s.heap.cell r).names ≡ true)
  pub names :
      (n : Str) (r : ℕ)
      → holds r s.containers ≡ true
      → elem n (s.heap.cell r).names ≡ true
      → GoMap.get s.byname n ≡ some r
  -- bylayer points to listed records with that layer
  pub layered :
      (l : Str) (r : ℕ)
      → GoMap.get s.bylayer l ≡ some r
      → (holds r s.containers ≡ true) × ((s.heap.cell r).layer_id ≡ l)
  -- the index knows the ids that it accepts
  pub index_valid : p.index.IsValid s.idindex
  pub indexed : (k : Str) → p.index.contains s.idindex k ≡ proper k && is_some (GoMap.get s.byid k)

-- A store whose records keep their ids and layers, and whose tables but that of names are the same,
-- keeps the agreement if the names do.
module _ {p : Platform} (s t : ContainerStore p) (v : Inv s)
    (tables : t ≡ record s {
      heap = record s.heap { cell = t.heap.cell };
      byname = t.byname;
      world = t.world;
    })
    (ids : (q : ℕ) → (t.heap.cell q).id ≡ (s.heap.cell q).id)
    (layers : (q : ℕ) → (t.heap.cell q).layer_id ≡ (s.heap.cell q).layer_id) where
  same_containers : t.containers ≡ s.containers
  same_containers = ap (λ (u : ContainerStore p). u.containers) tables

  same_byid : t.byid ≡ s.byid
  same_byid = ap (λ (u : ContainerStore p). u.byid) tables

  same_bylayer : t.bylayer ≡ s.bylayer
  same_bylayer = ap (λ (u : ContainerStore p). u.bylayer) tables

  same_idindex : t.idindex ≡ s.idindex
  same_idindex = ap (λ (u : ContainerStore p). u.idindex) tables

  same_next : t.heap.next ≡ s.heap.next
  same_next = ap (λ (u : ContainerStore p). u.heap.next) tables

  pub Inv-of_names :
      ((n : Str) (q : ℕ)
        → GoMap.get t.byname n ≡ some q
        → (holds q s.containers ≡ true) × (elem n (t.heap.cell q).names ≡ true))
      → ((n : Str) (q : ℕ)
          → holds q s.containers ≡ true
          → elem n (t.heap.cell q).names ≡ true
          → GoMap.get t.byname n ≡ some q)
      → Inv t
  Inv-of_names named names = record {
    ids = λ k q. rw (same_byid, same_containers, ids q) (v.ids k q);
    listed = λ q. rw (same_containers, same_byid, ids q) (v.listed q);
    once = rw same_containers v.once;
    allocated = λ q. rw (same_containers, same_next) (v.allocated q);
    named = λ n q. rw same_containers (named n q);
    names = λ n q. rw same_containers (names n q);
    layered = λ l q. rw (same_bylayer, same_containers, layers q) (v.layered l q);
    index_valid = rw same_idindex v.index_valid;
    indexed = λ k. rw (same_idindex, same_byid) (v.indexed k);
  }

  -- The same where the names did not change either.
  pub Inv-of_cells :
      ((q : ℕ) → (t.heap.cell q).names ≡ (s.heap.cell q).names) → t.byname ≡ s.byname → Inv t
  Inv-of_cells names byname =
      Inv-of_names (λ n q. rw (byname, names q) (v.named n q))
        (λ n q. rw (byname, names q) (v.names n q))
