-- ===== src/Containers/Invariant/Rebuild.antt =====
-- The loop of Load of containers.go over all records.
use containers_storage.Prelude.{
  ℕ, ◌≡◌, refl, ap, ◌∙◌, Bool, true, false, ◌||◌, none, List, [], ◌∷◌, map, arith, Str, str_eq,
  str_eq_iff, elem, distinct, holds, distinct_refs, is_some, Option-cases, Bool-cases, inl, inr,
}
use containers_storage.Prelude.GoMap
use containers_storage.Prelude.Heap.{Heap}
use containers_storage.Containers.{Container, ContainerStore, Platform}
use containers_storage.Containers.Load.{alloc_all, load_names, load_all, enter_id, blank, rebuild}
use containers_storage.Containers.Invariant.{Inv}
use containers_storage.Containers.Invariant.Names.{take_names-SameButNames}
use containers_storage.Containers.Invariant.Alloc.{
  ids_of, names_distinct, alloc_all-range, distinct_refs-alloc_all, ids_differ, names_distinct-cell,
}
use containers_storage.Containers.Invariant.Load.{Loaded, step-Loaded, load_names-eq-take_names}

-- The records done after a loop over `rs`.
unfoldable pub onto : List ℕ → List ℕ → List ℕ
onto [] done = done
onto (r ∷ rs) done = onto rs (r ∷ done)

pub holds-onto : (q : ℕ) (rs done : List ℕ) → holds q (onto rs done) ≡ holds q rs || holds q done
unfolding onto holds
holds-onto q [] done = refl
holds-onto q (r ∷ rs) done = ground (arith, holds-onto q rs (r ∷ done))

module _ {p : Platform} (h : Heap Container) (all : List ℕ)
    (unique : (q r : ℕ)
      → holds q all ≡ true
      → holds r all ≡ true
      → (h.cell q).id ≡ (h.cell r).id
      → q ≡ r)
    (once : (q : ℕ) → holds q all ≡ true → distinct (h.cell q).names ≡ true) where
  unused_id :
      (done : List ℕ) (t : ContainerStore p) (r : ℕ)
      → Loaded h done t
      → ((q : ℕ) → holds q done ≡ true → holds q all ≡ true)
      → holds r all ≡ true
      → holds r done ≡ false
      → GoMap.get t.byid (t.heap.cell r).id ≡ none
  unused_id done t r v sub inside fresh =
      elim (Option-cases (GoMap.get t.byid (t.heap.cell r).id)) [
        | inl e ↦ e
        | inr (q, e) ↦
            ground (arith, v.ids (t.heap.cell r).id q, v.same_id q, v.same_id r, unique q r, sub q)
      ]

  abbrev after : ℕ → ContainerStore p → Bool → ContainerStore p × Bool
  after r t need = load_names r (t.heap.cell r).names (enter_id t r, need)

  pub load_all-Loaded :
      (rs done : List ℕ) (t : ContainerStore p) (need : Bool)
      → Loaded h done t
      → ((q : ℕ) → holds q rs ≡ true → (holds q all ≡ true) × (holds q done ≡ false))
      → ((q : ℕ) → holds q done ≡ true → holds q all ≡ true)
      → distinct_refs rs ≡ true
      → Loaded h (onto rs done) (load_all rs (t, need)).0
  unfolding load_all onto holds distinct_refs
  load_all-Loaded [] done t need v ahead sub d = v
  load_all-Loaded (r ∷ rs) done t need v ahead sub d =
      load_all-Loaded rs (r ∷ done) (after r t need).0 (after r t need).1
        (rw (load_names-eq-take_names r (t.heap.cell r).names (enter_id t r) need) (
          step-Loaded h done t r v fresh (unused_id done t r v sub inside fresh)
            (rw (v.untouched r fresh) (once r inside))))
        (λ q e. (ground (arith, ahead q), ground (arith, ahead q)))
        (λ q e. ground (arith, sub q, inside)) (ground arith)
    where
      inside : holds r all ≡ true
      inside = ground (arith, ahead r)

      fresh : holds r done ≡ false
      fresh = ground (arith, ahead r)

module _ {p : Platform} where
  load_names_frame :
      (r : ℕ) (names : List Str) (t : ContainerStore p) (need : Bool)
      → ((load_names r names (t, need)).0.containers ≡ t.containers)
        × ((load_names r names (t, need)).0.heap.next ≡ t.heap.next)
  load_names_frame r names t need = rw (load_names-eq-take_names r names t need) (
    ap (λ (u : ContainerStore p). u.containers) (take_names-SameButNames r t names).tables,
    ap (λ (u : ContainerStore p). u.heap.next) (take_names-SameButNames r t names).tables,
  )

  pub load_all_frame :
      (rs : List ℕ) (t : ContainerStore p) (need : Bool)
      → ((load_all rs (t, need)).0.containers ≡ t.containers)
        × ((load_all rs (t, need)).0.heap.next ≡ t.heap.next)
  unfolding load_all
  load_all_frame [] t need = (refl, refl)
  load_all_frame (r ∷ rs) t need =
      let next : ContainerStore p × Bool =
        load_names r (t.heap.cell r).names (enter_id t r, need) in
      let ih = load_all_frame rs next.0 next.1 in
      let here = load_names_frame r (t.heap.cell r).names (enter_id t r) need in
      (ih.0 ∙ here.0, ih.1 ∙ here.1)

pub elem-map :
    (f : ℕ → Str) (rs : List ℕ) (q : ℕ) → holds q rs ≡ true → elem (f q) (map f rs) ≡ true
unfolding elem holds
elem-map f [] q e = cc
elem-map f (r ∷ rs) q e = ground (arith, elem-map f rs q, str_eq_iff (f r) (f q))

pub find_elem :
    (f : ℕ → Str) (rs : List ℕ) (k : Str)
    → elem k (map f rs) ≡ true
    → (q : ℕ) × (holds q rs ≡ true) × (f q ≡ k)
unfolding elem holds
find_elem f [] k e = cc
find_elem f (r ∷ rs) k e = elim (Bool-cases (str_eq (f r) k)) [
  | inl here ↦ (r, ground arith, (str_eq_iff (f r) k).0 here)
  | inr later ↦ let (q, h, m) = find_elem f rs k (ground arith) in (q, ground arith, m)
]

module _ {p : Platform} (s : ContainerStore p) (cs : List Container)
    (unique : distinct (ids_of cs) ≡ true) (once : names_distinct cs ≡ true) where
  abbrev built : ContainerStore p
  built = (load_all (alloc_all s.heap cs).1 (blank s cs, false)).0

  abbrev refs : List ℕ
  refs = (alloc_all s.heap cs).1

  blank-Loaded : Loaded (alloc_all s.heap cs).0 [] (blank s cs)
  unfolding holds
  blank-Loaded = record {
    ids = λ k q e. ground (arith, GoMap.get-empty {V = ℕ} k);
    listed = λ q e. cc;
    named = λ n q e. ground (arith, GoMap.get-empty {V = ℕ} n);
    names = λ n q e m. cc;
    layered = λ l q e. ground (arith, GoMap.get-empty {V = ℕ} l);
    same_id = λ q. refl;
    untouched = λ q e. refl;
  }

  built-Loaded : Loaded (alloc_all s.heap cs).0 (onto refs []) built
  unfolding holds
  built-Loaded =
      load_all-Loaded (alloc_all s.heap cs).0 refs (λ q r e f. ids_differ s.heap cs q r unique e f)
        (λ q e. names_distinct-cell s.heap cs q once e) refs [] (blank s cs) false blank-Loaded
        (λ q e. (e, refl)) (λ q e. cc) (distinct_refs-alloc_all s.heap cs)

  holds-built : (q : ℕ) → holds q (onto refs []) ≡ holds q built.containers
  unfolding holds
  holds-built q = ground (arith, holds-onto q refs [], (load_all_frame refs (blank s cs) false).0)

  indexed :
      (k : Str)
      → elem k (map (λ r. (built.heap.cell r).id) built.containers)
        ≡ is_some (GoMap.get built.byid k)
  indexed k = elim (Option-cases (GoMap.get built.byid k)) [
    | inl e ↦ elim (Bool-cases (elem k (map (λ r. (built.heap.cell r).id) built.containers))) [
      | inl m ↦
          let (q, h, i) = find_elem (λ r. (built.heap.cell r).id) built.containers k m in
          ground (arith, built-Loaded.listed q, holds-built q)
      | inr m ↦ ground arith
    ]
    | inr (q, e) ↦ ground (
      arith,
      built-Loaded.ids k q,
      holds-built q,
      elem-map (λ r. (built.heap.cell r).id) built.containers q,
    )
  ]

  -- From records with different ids, none of which names itself twice, Load builds tables that agree.
  pub rebuild-Inv : Inv (rebuild s cs).0
  unfolding rebuild
  rebuild-Inv = record {
    ids = λ k q e. ground (arith, built-Loaded.ids k q, holds-built q);
    listed = λ q e. built-Loaded.listed q (holds-built q ∙ e);
    once = rw (load_all_frame refs (blank s cs) false).0 (distinct_refs-alloc_all s.heap cs);
    allocated =
        λ q e. ground (arith, alloc_all-range s.heap cs q, load_all_frame refs (blank s cs) false);
    named = λ n q e. ground (arith, built-Loaded.named n q, holds-built q);
    names = λ n q e m. built-Loaded.names n q (holds-built q ∙ e) m;
    layered = λ l q e. ground (arith, built-Loaded.layered l q, holds-built q);
    index_valid = p.index.build-IsValid _;
    indexed = λ k. ground (
      arith,
      p.index.contains-build (map (λ r. (built.heap.cell r).id) built.containers) k,
      indexed k,
    );
  }
