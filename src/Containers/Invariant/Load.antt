-- ===== src/Containers/Invariant/Load.antt =====
-- Load of containers.go builds tables that agree from any records with different ids, also where two
-- of them claim one name.
use containers_storage.Prelude.{
  ℕ, ◌≡◌, refl, ap, ◌∙◌, Bool, true, false, ◌||◌, none, some, List, [], ◌∷◌, arith, Str, str_eq_iff,
  elem, distinct, holds, is_some, ◌==◌,
}
use containers_storage.Prelude.GoMap
use containers_storage.Prelude.GoMap.{GoMap}
use containers_storage.Prelude.Heap.{Heap}
use containers_storage.Containers.{Container, ContainerStore, Platform}
use containers_storage.Containers.Changes.{take_name, take_names}
use containers_storage.Containers.Load.{load_names, enter_id}
use containers_storage.Containers.Invariant.Names.{
  is_holder, SameButNames, Others, take_names-SameButNames, get-take_name, get-take_names,
  take_names-Others,
}

module _ {p : Platform} where
  pub load_names-eq-take_names :
      (r : ℕ) (names : List Str) (t : ContainerStore p) (need : Bool)
      → (load_names r names (t, need)).0 ≡ take_names r t names
  unfolding load_names take_names
  load_names-eq-take_names r [] t need = refl
  load_names-eq-take_names r (name ∷ names) t need =
      load_names-eq-take_names r names (take_name r t name)
        (is_some (GoMap.get t.byname name) || need)

  take_name_other :
      (r : ℕ) (t : ContainerStore p) (name : Str) (q : ℕ)
      → is_holder q (GoMap.get t.byname name) ≡ false
      → (take_name r t name).heap.cell q ≡ t.heap.cell q
  unfolding take_name
  take_name_other r t name q h = ground arith

  -- A record that no name of the loop leads to stays as it is.
  take_names_other :
      (r : ℕ) (t : ContainerStore p) (names : List Str) (q : ℕ)
      → (r == q) ≡ false
      → ((n : Str) → is_holder q (GoMap.get t.byname n) ≡ false)
      → (take_names r t names).heap.cell q ≡ t.heap.cell q
  unfolding take_names
  take_names_other r t [] q d h = refl
  take_names_other r t (name ∷ names) q d h =
      take_names_other r (take_name r t name) names q d
        (λ n. ground (arith, get-take_name r t name n, h n))
      ∙ take_name_other r t name q (h name)

  -- The record that takes different names, none of which leads to it, keeps its own.
  take_names_self :
      (r : ℕ) (t : ContainerStore p) (names : List Str)
      → distinct names ≡ true
      → ((n : Str) → elem n names ≡ true → is_holder r (GoMap.get t.byname n) ≡ false)
      → (take_names r t names).heap.cell r ≡ t.heap.cell r
  unfolding take_names distinct elem
  take_names_self r t [] d h = refl
  take_names_self r t (name ∷ names) d h =
      take_names_self r (take_name r t name) names (ground arith)
        (λ n e. ground (arith, get-take_name r t name n, h n, str_eq_iff name n))
      ∙ take_name_other r t name r (h name (ground (arith, str_eq_iff name name)))

  -- The tables agree for the records in `done`, and the others are as decoded.
  pub record Loaded (h : Heap Container) (done : List ℕ) (t : ContainerStore p) : Type 0 where
    pub ids :
        (k : Str) (q : ℕ)
        → GoMap.get t.byid k ≡ some q
        → ((t.heap.cell q).id ≡ k) × (holds q done ≡ true)
    pub listed : (q : ℕ) → holds q done ≡ true → GoMap.get t.byid (t.heap.cell q).id ≡ some q
    pub named :
        (n : Str) (q : ℕ)
        → GoMap.get t.byname n ≡ some q
        → (holds q done ≡ true) × (elem n (t.heap.cell q).names ≡ true)
    pub names :
        (n : Str) (q : ℕ)
        → holds q done ≡ true
        → elem n (t.heap.cell q).names ≡ true
        → GoMap.get t.byname n ≡ some q
    pub layered :
        (l : Str) (q : ℕ)
        → GoMap.get t.bylayer l ≡ some q
        → (holds q done ≡ true) × ((t.heap.cell q).layer_id ≡ l)
    pub same_id : (q : ℕ) → (t.heap.cell q).id ≡ (h.cell q).id
    pub untouched : (q : ℕ) → holds q done ≡ false → t.heap.cell q ≡ h.cell q

  module _ (h : Heap Container) (done : List ℕ) (t : ContainerStore p) (r : ℕ) (v : Loaded h done t)
      (fresh : holds r done ≡ false) (unused : GoMap.get t.byid (t.heap.cell r).id ≡ none)
      (once : distinct (t.heap.cell r).names ≡ true) where
    abbrev pub entered : ContainerStore p
    entered = enter_id t r

    abbrev pub stepped : ContainerStore p
    stepped = take_names r entered (t.heap.cell r).names

    same : SameButNames entered stepped
    same = take_names-SameButNames r entered (t.heap.cell r).names

    others : Others r done stepped
    others =
        take_names-Others r done entered (t.heap.cell r).names
          (record { named = λ n q e d. v.named n q e; names = λ n q e d m. v.names n q e m })

    self : stepped.heap.cell r ≡ t.heap.cell r
    self = take_names_self r entered (t.heap.cell r).names once (λ n e. ground (arith, v.named n r))

    cell_id : (q : ℕ) → (stepped.heap.cell q).id ≡ (t.heap.cell q).id
    cell_id q = ap (λ (c : Container). c.id) (same.cells q)

    cell_layer : (q : ℕ) → (stepped.heap.cell q).layer_id ≡ (t.heap.cell q).layer_id
    cell_layer q = ap (λ (c : Container). c.layer_id) (same.cells q)

    byid_same : stepped.byid ≡ entered.byid
    byid_same = ap (λ (u : ContainerStore p). u.byid) same.tables

    bylayer_same : stepped.bylayer ≡ entered.bylayer
    bylayer_same = ap (λ (u : ContainerStore p). u.bylayer) same.tables

    pub step-Loaded : Loaded h (r ∷ done) stepped
    unfolding holds
    step-Loaded = record {
      ids = λ k q e. ground (
        arith,
        byid_same,
        cell_id q,
        v.ids k q,
        GoMap.get-put t.byid (t.heap.cell r).id r k,
        str_eq_iff (t.heap.cell r).id k,
      );
      listed = λ q e. ground (
        arith,
        byid_same,
        cell_id q,
        v.listed q,
        GoMap.get-put t.byid (t.heap.cell r).id r (t.heap.cell q).id,
        str_eq_iff (t.heap.cell r).id (t.heap.cell q).id,
      );
      named = λ n q e. ground (
        arith,
        self,
        others.named n q,
        v.named n q,
        get-take_names r entered (t.heap.cell r).names n,
      );
      names = λ n q e m.
          ground (arith, self, others.names n q, get-take_names r entered (t.heap.cell r).names n);
      layered = λ l q e. ground (
        arith,
        bylayer_same,
        cell_layer q,
        v.layered l q,
        GoMap.get-put t.bylayer (t.heap.cell r).layer_id r l,
        str_eq_iff (t.heap.cell r).layer_id l,
      );
      same_id = λ q. cell_id q ∙ v.same_id q;
      untouched = λ q e.
          take_names_other r entered (t.heap.cell r).names q (ground arith)
            (λ n. ground (arith, v.named n q))
          ∙ v.untouched q (ground arith);
    }
