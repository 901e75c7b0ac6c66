-- ===== src/Containers/Invariant/Enter.antt =====
-- Create of containers.go keeps the tables in agreement.
use containers_storage.Prelude.{
  ℕ, ◌≡◌, refl, true, false, none, some, List, [], ◌∷◌, arith, Str, str_eq_iff, elem, holds-snoc,
  distinct_refs-snoc, if◌then◌else◌, ◌==◌, is_some, Bool-cases, inl, inr,
}
use containers_storage.Prelude.GoMap
use containers_storage.Prelude.GoMap.{GoMap}
use containers_storage.Containers.{Container, ContainerStore, Platform}
use containers_storage.Containers.Create.{any_in_use, name_all, enter}
use containers_storage.Containers.Invariant.{Inv}

pub get-name_all :
    (m : GoMap ℕ) (names : List Str) (r : ℕ) (n : Str)
    → GoMap.get (name_all m names r) n ≡ (if elem n names then some r else GoMap.get m n)
unfolding name_all elem
get-name_all m [] r n = refl
get-name_all m (name ∷ names) r n =
    rw (get-name_all (GoMap.put m name r) names r n) (ground (arith, GoMap.get-put m name r n))

pub any_in_use-none :
    (m : GoMap ℕ) (names : List Str) (n : Str)
    → any_in_use m names ≡ false
    → elem n names ≡ true
    → GoMap.get m n ≡ none
unfolding any_in_use elem
any_in_use-none m [] n h e = cc
any_in_use-none m (name ∷ names) n h e =
    ground (arith, any_in_use-none m names n, str_eq_iff name n)

module _ {p : Platform} (c : Container) (s : ContainerStore p) (v : Inv s)
    (unused : GoMap.get s.byid c.id ≡ none) (free : any_in_use s.byname c.names ≡ false) where
  -- Entering a record with a new id and free names keeps the tables in agreement.
  pub enter-Inv : Inv (enter c s)
  unfolding enter
  enter-Inv = record {
    ids = λ k r h. ground (
      arith,
      GoMap.get-put s.byid c.id s.heap.next k,
      v.ids k r,
      v.allocated r,
      str_eq_iff c.id k,
      holds-snoc r s.containers s.heap.next,
    );
    listed = λ r h. elim (Bool-cases (s.heap.next == r)) [
      | inl e ↦ ground (arith, GoMap.get-put s.byid c.id s.heap.next c.id, str_eq_iff c.id c.id)
      | inr e ↦ ground (
        arith,
        GoMap.get-put s.byid c.id s.heap.next (s.heap.cell r).id,
        v.listed r,
        str_eq_iff c.id (s.heap.cell r).id,
        holds-snoc r s.containers s.heap.next,
      )
    ];
    once =
        distinct_refs-snoc s.containers s.heap.next v.once
          (ground (arith, v.allocated s.heap.next));
    allocated = λ r h. ground (arith, holds-snoc r s.containers s.heap.next, v.allocated r);
    named = λ n r h. ground (
      arith,
      get-name_all s.byname c.names s.heap.next n,
      holds-snoc r s.containers s.heap.next,
      v.named n r,
      v.allocated r,
    );
    names = λ n r h e. ground (
      arith,
      get-name_all s.byname c.names s.heap.next n,
      holds-snoc r s.containers s.heap.next,
      any_in_use-none s.byname c.names n free,
      v.names n r,
    );
    layered = λ l r h. ground (
      arith,
      GoMap.get-put s.bylayer c.layer_id s.heap.next l,
      holds-snoc r s.containers s.heap.next,
      str_eq_iff c.layer_id l,
      v.layered l r,
      v.allocated r,
    );
    index_valid = p.index.add-IsValid s.idindex c.id v.index_valid;
    indexed = λ k. ground (
      arith,
      p.index.contains-add s.idindex c.id k,
      v.indexed k,
      GoMap.get-put s.byid c.id s.heap.next k,
      str_eq_iff c.id k,
    );
  }

pub any_in_use_some :
    (m : GoMap ℕ) (names : List Str) (n : Str)
    → elem n names ≡ true
    → is_some (GoMap.get m n) ≡ true
    → any_in_use m names ≡ true
unfolding any_in_use elem
any_in_use_some m [] n e h = cc
any_in_use_some m (name ∷ names) n e h =
    ground (arith, any_in_use_some m names n, str_eq_iff name n)
