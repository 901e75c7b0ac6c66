-- ===== src/Containers/Invariant/Delete.antt =====
-- Delete and Wipe of containers.go keep the tables in agreement, whatever they return.
use containers_storage.Prelude.{
  ℕ, ◌<◌, ◌≡◌, refl, true, not, ◌&&◌, Option, none, some, List, [], ◌∷◌, arith, Str, str_eq,
  str_eq_iff, elem, length, holds, remove_at, if◌then◌else◌, ◌==◌, Option-cases, inl, inr,
}
use containers_storage.Prelude.GoMap
use containers_storage.Prelude.GoMap.{GoMap}
use containers_storage.Prelude.Exec.{continue_keeps}
use containers_storage.Containers.{Container, ContainerStore, Platform, save, lookup}
use containers_storage.Slices.{
  cut_found, cut-eq-remove_at, remove, holds-remove, distinct_refs-remove,
}
use containers_storage.Containers.Delete.{
  index_of, unname_all, forget, delete_at, delete, delete_all,
}
use containers_storage.Containers.Frame.{save-Inv, Inv-world}
use containers_storage.Containers.Invariant.{Inv}
use containers_storage.Containers.Lookup.{lookup-holds}

pub get-unname_all :
    (m : GoMap ℕ) (names : List Str) (n : Str)
    → GoMap.get (unname_all m names) n ≡ (if elem n names then none else GoMap.get m n)
unfolding unname_all elem
get-unname_all m [] n = refl
get-unname_all m (name ∷ names) n =
    rw (get-unname_all (GoMap.del m name) names n) (ground (arith, GoMap.get-del m name n))

index_of_bound :
    (cell : ℕ → Container) (rs : List ℕ) (id : Str) (i : ℕ)
    → index_of cell rs id ≡ some i
    → i < length rs
unfolding index_of
index_of_bound cell [] id i h = cc
index_of_bound cell (r ∷ rs) id i h = elim (Option-cases (index_of cell rs id)) [
  | inl e ↦ ground arith
  | inr (j, e) ↦ ground (arith, index_of_bound cell rs id j e)
]

remove_found : List ℕ → Option ℕ → List ℕ
remove_found rs none = rs
remove_found rs (some i) = remove_at i rs

-- Where ids tell listed records apart, the first record with the id of `r` is `r`.
remove_found-index_of :
    (cell : ℕ → Container) (rs : List ℕ) (r : ℕ)
    → ((q : ℕ) → holds q rs ≡ true → str_eq (cell q).id (cell r).id ≡ (q == r))
    → remove_found rs (index_of cell rs (cell r).id) ≡ remove r rs
unfolding remove_found index_of remove holds remove_at
remove_found-index_of cell [] r u = refl
remove_found-index_of cell (x ∷ xs) r u =
    ground (arith, u x, remove_found-index_of cell xs r (λ q h. u q (ground arith)))

pub cut_found-eq-remove :
    (cell : ℕ → Container) (rs : List ℕ) (r : ℕ)
    → ((q : ℕ) → holds q rs ≡ true → str_eq (cell q).id (cell r).id ≡ (q == r))
    → cut_found rs (index_of cell rs (cell r).id) ≡ remove r rs
unfolding cut_found remove_found
cut_found-eq-remove cell rs r u = elim (Option-cases (index_of cell rs (cell r).id)) [
  | inl e ↦ ground (arith, remove_found-index_of cell rs r u)
  | inr (i, e) ↦ ground (
    arith,
    remove_found-index_of cell rs r u,
    cut-eq-remove_at rs i (index_of_bound cell rs _ i e),
  )
]

module _ {p : Platform} (r : ℕ) (s : ContainerStore p) (v : Inv s)
    (live : holds r s.containers ≡ true) where
  ids_differ :
      (q : ℕ)
      → holds q s.containers ≡ true
      → str_eq (s.heap.cell q).id (s.heap.cell r).id ≡ (q == r)
  ids_differ q h =
      ground (arith, v.listed q, v.listed r, str_eq_iff (s.heap.cell q).id (s.heap.cell r).id)

  pub containers-forget : (forget r s).containers ≡ remove r s.containers
  unfolding forget
  containers-forget = cut_found-eq-remove s.heap.cell s.containers r ids_differ

  pub holds-forget :
      (q : ℕ) → holds q (forget r s).containers ≡ holds q s.containers && not (r == q)
  holds-forget q = rw containers-forget (holds-remove r q s.containers v.once)

  -- Taking a listed record out of the tables keeps them in agreement.
  pub forget-Inv : Inv (forget r s)
  unfolding forget
  forget-Inv = record {
    ids = λ k q h. ground (
      arith,
      holds-forget q,
      v.ids k q,
      v.listed r,
      GoMap.get-del s.byid (s.heap.cell r).id k,
      str_eq_iff (s.heap.cell r).id k,
    );
    listed = λ q h. ground (
      arith,
      holds-forget q,
      v.listed q,
      ids_differ q,
      str_eq_iff (s.heap.cell q).id (s.heap.cell r).id,
      GoMap.get-del s.byid (s.heap.cell r).id (s.heap.cell q).id,
      str_eq_iff (s.heap.cell r).id (s.heap.cell q).id,
    );
    once = rw containers-forget (distinct_refs-remove r s.containers v.once);
    allocated = λ q h. ground (arith, holds-forget q, v.allocated q);
    named = λ n q h.
        ground
          (arith, holds-forget q, v.named n q, get-unname_all s.byname (s.heap.cell r).names n);
    names = λ n q h e. ground (
      arith,
      holds-forget q,
      v.names n q,
      v.names n r,
      get-unname_all s.byname (s.heap.cell r).names n,
    );
    layered = λ l q h. ground (
      arith,
      holds-forget q,
      v.layered l q,
      GoMap.get-del s.bylayer (s.heap.cell r).layer_id l,
      str_eq_iff (s.heap.cell r).layer_id l,
    );
    index_valid = p.index.delete-IsValid s.idindex _ v.index_valid;
    indexed = λ k. ground (
      arith,
      v.indexed k,
      p.index.contains-delete s.idindex (s.heap.cell r).id k v.index_valid,
      GoMap.get-del s.byid (s.heap.cell r).id k,
    );
  }

module _ {p : Platform} where
  delete_at-Inv :
      (o : Option ℕ) (s : ContainerStore p)
      → Inv s
      → ((r : ℕ) → o ≡ some r → holds r s.containers ≡ true)
      → Inv (delete_at o s).1
  unfolding delete_at
  delete_at-Inv none s v live = v
  delete_at-Inv (some r) s v live =
      let kept : Inv (save (forget r s)).1 =
        save-Inv (forget r s) (forget-Inv r s v (live r refl)) in
      continue_keeps Inv (save (forget r s)).0 _ (save (forget r s)).1 kept
        (λ _ _. Inv-world _ _ kept)

  pub delete-Inv : (id : Str) (s : ContainerStore p) → Inv s → Inv (delete id s).1
  unfolding delete
  delete-Inv id s v = delete_at-Inv (lookup s id) s v (lookup-holds s v id)

  pub delete_all-Inv : (ids : List Str) (s : ContainerStore p) → Inv s → Inv (delete_all ids s).1
  unfolding delete_all
  delete_all-Inv [] s v = v
  delete_all-Inv (id ∷ ids) s v =
      continue_keeps Inv (delete id s).0 _ (delete id s).1 (delete-Inv id s v)
        (λ _ _. delete_all-Inv ids (delete id s).1 (delete-Inv id s v))
