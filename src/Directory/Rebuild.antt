-- ===== src/Directory/Rebuild.antt =====
-- The tables that a directory builds from the records of a file.
use containers_storage.Prelude.{
  ℕ, ◌≡◌, refl, ap, ◌∙◌, Bool, true, false, none, List, [], ◌∷◌, map, arith, Str, elem, distinct,
  holds, distinct_refs, is_some, Option-cases, Bool-cases, inl, inr,
}
use containers_storage.Prelude.GoMap
use containers_storage.Prelude.Heap.{Heap}
use containers_storage.TruncIndex.Interface.{IdIndex}
use containers_storage.Containers.Invariant.Rebuild.{onto, holds-onto, elem-map, find_elem}
use containers_storage.Directory.{
  Kind, Tables, id_at, names_at, load_names_of, load_items, enter_id_of, alloc_items, blank_tables,
  rebuild_tables,
}
use containers_storage.Directory.Agrees.{Agrees}
use containers_storage.Directory.Names.{move_names-SameButNames}
use containers_storage.Directory.Alloc.{
  ids_in, names_distinct, alloc_items-range, distinct_refs-alloc_items, ids_differ,
  names_distinct-cell,
}
use containers_storage.Directory.Loading.{Loaded, step-Loaded, load_names_of-eq-move_names}

module _ {k : Kind} {ix : IdIndex} (h : Heap k.Item) (all : List ℕ)
    (unique : (q r : ℕ)
      → holds q all ≡ true
      → holds r all ≡ true
      → k.id_of (h.cell q) ≡ k.id_of (h.cell r)
      → q ≡ r)
    (once : (q : ℕ) → holds q all ≡ true → distinct (k.names_of (h.cell q)) ≡ true) where
  unused_id :
      (done : List ℕ) (t : Tables k ix) (r : ℕ)
      → Loaded h done t
      → ((q : ℕ) → holds q done ≡ true → holds q all ≡ true)
      → holds r all ≡ true
      → holds r done ≡ false
      → GoMap.get t.byid (id_at t r) ≡ none
  unused_id done t r v sub inside fresh = elim (Option-cases (GoMap.get t.byid (id_at t r))) [
    | inl e ↦ e
    | inr (q, e) ↦ ground (arith, v.ids (id_at t r) q, v.same_id q, v.same_id r, unique q r, sub q)
  ]

  abbrev after : ℕ → Tables k ix → Bool → Tables k ix × Bool
  after r t need = load_names_of r (names_at t r) (enter_id_of t r, need)

  pub load_items-Loaded :
      (rs done : List ℕ) (t : Tables k ix) (need : Bool)
      → Loaded h done t
      → ((q : ℕ) → holds q rs ≡ true → (holds q all ≡ true) × (holds q done ≡ false))
      → ((q : ℕ) → holds q done ≡ true → holds q all ≡ true)
      → distinct_refs rs ≡ true
      → Loaded h (onto rs done) (load_items rs (t, need)).0
  unfolding load_items onto holds distinct_refs
  load_items-Loaded [] done t need v ahead sub d = v
  load_items-Loaded (r ∷ rs) done t need v ahead sub d =
      load_items-Loaded rs (r ∷ done) (after r t need).0 (after r t need).1
        (rw (load_names_of-eq-move_names r (names_at t r) (enter_id_of t r) need) (
          step-Loaded h done t r v fresh (unused_id done t r v sub inside fresh)
            (rw (v.untouched r fresh) (once r inside))))
        (λ q e. (ground (arith, ahead q), ground (arith, ahead q)))
        (λ q e. ground (arith, sub q, inside)) (ground arith)
    where
      inside : holds r all ≡ true
      inside = ground (arith, ahead r)

      fresh : holds r done ≡ false
      fresh = ground (arith, ahead r)

module _ {k : Kind} {ix : IdIndex} where
  load_names_of_frame :
      (r : ℕ) (names : List Str) (t : Tables k ix) (need : Bool)
      → ((load_names_of r names (t, need)).0.items ≡ t.items)
        × ((load_names_of r names (t, need)).0.heap.next ≡ t.heap.next)
  load_names_of_frame r names t need = rw (load_names_of-eq-move_names r names t need) (
    ap (λ (u : Tables k ix). u.items) (move_names-SameButNames r t names).tables,
    ap (λ (u : Tables k ix). u.heap.next) (move_names-SameButNames r t names).tables,
  )

  pub load_items_frame :
      (rs : List ℕ) (t : Tables k ix) (need : Bool)
      → ((load_items rs (t, need)).0.items ≡ t.items)
        × ((load_items rs (t, need)).0.heap.next ≡ t.heap.next)
  unfolding load_items
  load_items_frame [] t need = (refl, refl)
  load_items_frame (r ∷ rs) t need =
      let next : Tables k ix × Bool = load_names_of r (names_at t r) (enter_id_of t r, need) in
      let ih = load_items_frame rs next.0 next.1 in
      let here = load_names_of_frame r (names_at t r) (enter_id_of t r) need in
      (ih.0 ∙ here.0, ih.1 ∙ here.1)

-- Loading changes the names of records alone.
module _ {k : Kind} {ix : IdIndex} {X : Type 0} (f : k.Item → X)
    (blind : (i : k.Item) (ns : List Str) → f (k.with_names i ns) ≡ f i) where
  pub load_items_blind :
      (rs : List ℕ) (t : Tables k ix) (need : Bool) (q : ℕ)
      → f ((load_items rs (t, need)).0.heap.cell q) ≡ f (t.heap.cell q)
  unfolding load_items
  load_items_blind [] t need q = refl
  load_items_blind (r ∷ rs) t need q =
      let next : Tables k ix × Bool = load_names_of r (names_at t r) (enter_id_of t r, need) in
      let same = move_names-SameButNames r (enter_id_of t r) (names_at t r) in
      load_items_blind rs next.0 next.1 q
      ∙ (ap (λ (u : Tables k ix). f (u.heap.cell q))
            (load_names_of-eq-move_names r (names_at t r) (enter_id_of t r) need)
          ∙ (ap f (same.cells q) ∙ blind (t.heap.cell q) _))

module _ (k : Kind) (ix : IdIndex) (h : Heap k.Item) (cs : List k.Item)
    (unique : distinct (ids_in k.id_of cs) ≡ true)
    (once : names_distinct k.names_of cs ≡ true) where
  abbrev pub start : Tables k ix
  start = blank_tables h cs

  abbrev pub built : Tables k ix
  built = (load_items (alloc_items h cs).1 (start, false)).0

  abbrev refs : List ℕ
  refs = (alloc_items h cs).1

  blank-Loaded : Loaded {k = k} {ix = ix} (alloc_items h cs).0 [] start
  unfolding holds
  blank-Loaded = record {
    ids = λ n q e. ground (arith, GoMap.get-empty {V = ℕ} n);
    listed = λ q e. cc;
    named = λ n q e. ground (arith, GoMap.get-empty {V = ℕ} n);
    names = λ n q e m. cc;
    same_id = λ q. refl;
    untouched = λ q e. refl;
  }

  built-Loaded : Loaded {k = k} {ix = ix} (alloc_items h cs).0 (onto refs []) built
  unfolding holds
  built-Loaded =
      load_items-Loaded (alloc_items h cs).0 refs
        (λ q r e f. ids_differ k.id_of h cs q r unique e f)
        (λ q e. names_distinct-cell k.names_of h cs q once e) refs [] start false blank-Loaded
        (λ q e. (e, refl)) (λ q e. cc) (distinct_refs-alloc_items h cs)

  holds-built : (q : ℕ) → holds q (onto refs []) ≡ holds q built.items
  unfolding holds
  holds-built q = ground (arith, holds-onto q refs [], (load_items_frame refs start false).0)

  pub indexed :
      (n : Str) → elem n (map (id_at built) built.items) ≡ is_some (GoMap.get built.byid n)
  indexed n = elim (Option-cases (GoMap.get built.byid n)) [
    | inl e ↦ elim (Bool-cases (elem n (map (id_at built) built.items))) [
      | inl m ↦
          let (q, h, i) = find_elem (id_at built) built.items n m in
          ground (arith, built-Loaded.listed q, holds-built q)
      | inr m ↦ ground arith
    ]
    | inr (q, e) ↦
        ground (arith, built-Loaded.ids n q, holds-built q, elem-map (id_at built) built.items q)
  ]

  -- From records with different ids, none of which names itself twice, tables are built that agree.
  pub rebuild-Agrees : Agrees {k = k} {ix = ix} (rebuild_tables {k = k} {ix = ix} h cs).0
  unfolding rebuild_tables
  rebuild-Agrees = record {
    ids = λ n q e. ground (arith, built-Loaded.ids n q, holds-built q);
    listed = λ q e. built-Loaded.listed q (holds-built q ∙ e);
    once = rw (load_items_frame refs start false).0 (distinct_refs-alloc_items h cs);
    allocated = λ q e. ground (arith, alloc_items-range h cs q, load_items_frame refs start false);
    named = λ n q e. ground (arith, built-Loaded.named n q, holds-built q);
    names = λ n q e m. built-Loaded.names n q (holds-built q ∙ e) m;
    index_valid = ix.build-IsValid _;
    indexed = λ n. ground (arith, ix.contains-build (map (id_at built) built.items) n, indexed n);
  }
