-- ===== src/Directory/Loading.antt =====
-- The loop that loads records into the tables of a directory, also where two of them claim one name.
use containers_storage.Prelude.{
  ℕ, ◌≡◌, refl, ap, ◌∙◌, Bool, true, false, ◌||◌, none, some, List, [], ◌∷◌, arith, Str, str_eq_iff,
  elem, distinct, holds, is_some, ◌==◌,
}
use containers_storage.Prelude.GoMap
use containers_storage.Prelude.Heap.{Heap}
use containers_storage.TruncIndex.Interface.{IdIndex}
use containers_storage.Containers.Invariant.Names.{is_holder}
use containers_storage.Directory.{
  Kind, Tables, id_at, names_at, move_name, move_names, load_names_of, enter_id_of,
}
use containers_storage.Directory.Names.{
  SameButNames, Others, move_names-SameButNames, get-move_name, get-move_names, move_names-Others,
}

module _ {k : Kind} {ix : IdIndex} where
  pub load_names_of-eq-move_names :
      (r : ℕ) (names : List Str) (t : Tables k ix) (need : Bool)
      → (load_names_of r names (t, need)).0 ≡ move_names r t names
  unfolding load_names_of move_names
  load_names_of-eq-move_names r [] t need = refl
  load_names_of-eq-move_names r (name ∷ names) t need =
      load_names_of-eq-move_names r names (move_name r t name)
        (is_some (GoMap.get t.byname name) || need)

  move_name_other :
      (r : ℕ) (t : Tables k ix) (name : Str) (q : ℕ)
      → is_holder q (GoMap.get t.byname name) ≡ false
      → (move_name r t name).heap.cell q ≡ t.heap.cell q
  unfolding move_name
  move_name_other r t name q h = ground arith

  -- A record that no name of the loop leads to stays as it is.
  move_names_other :
      (r : ℕ) (t : Tables k ix) (names : List Str) (q : ℕ)
      → (r == q) ≡ false
      → ((n : Str) → is_holder q (GoMap.get t.byname n) ≡ false)
      → (move_names r t names).heap.cell q ≡ t.heap.cell q
  unfolding move_names
  move_names_other r t [] q d h = refl
  move_names_other r t (name ∷ names) q d h =
      move_names_other r (move_name r t name) names q d
        (λ n. ground (arith, get-move_name r t name n, h n))
      ∙ move_name_other r t name q (h name)

  -- The record that takes different names, none of which leads to it, keeps its own.
  move_names_self :
      (r : ℕ) (t : Tables k ix) (names : List Str)
      → distinct names ≡ true
      → ((n : Str) → elem n names ≡ true → is_holder r (GoMap.get t.byname n) ≡ false)
      → (move_names r t names).heap.cell r ≡ t.heap.cell r
  unfolding move_names distinct elem
  move_names_self r t [] d h = refl
  move_names_self r t (name ∷ names) d h =
      move_names_self r (move_name r t name) names (ground arith)
        (λ n e. ground (arith, get-move_name r t name n, h n, str_eq_iff name n))
      ∙ move_name_other r t name r (h name (ground (arith, str_eq_iff name name)))

  -- The tables agree for the records in `done`, and the others are as decoded.
  pub record Loaded (h : Heap k.Item) (done : List ℕ) (t : Tables k ix) : Type 0 where
    pub ids :
        (n : Str) (q : ℕ) → GoMap.get t.byid n ≡ some q → (id_at t q ≡ n) × (holds q done ≡ true)
    pub listed : (q : ℕ) → holds q done ≡ true → GoMap.get t.byid (id_at t q) ≡ some q
    pub named :
        (n : Str) (q : ℕ)
        → GoMap.get t.byname n ≡ some q
        → (holds q done ≡ true) × (elem n (names_at t q) ≡ true)
    pub names :
        (n : Str) (q : ℕ)
        → holds q done ≡ true
        → elem n (names_at t q) ≡ true
        → GoMap.get t.byname n ≡ some q
    pub same_id : (q : ℕ) → (id_at t q) ≡ k.id_of (h.cell q)
    pub untouched : (q : ℕ) → holds q done ≡ false → t.heap.cell q ≡ h.cell q

  module _ (h : Heap k.Item) (done : List ℕ) (t : Tables k ix) (r : ℕ) (v : Loaded h done t)
      (fresh : holds r done ≡ false) (unused : GoMap.get t.byid (id_at t r) ≡ none)
      (once : distinct (names_at t r) ≡ true) where
    abbrev pub entered : Tables k ix
    entered = enter_id_of t r

    abbrev pub stepped : Tables k ix
    stepped = move_names r entered (names_at t r)

    same : SameButNames entered stepped
    same = move_names-SameButNames r entered (names_at t r)

    others : Others r done stepped
    others =
        move_names-Others r done entered (names_at t r)
          (record { named = λ n q e d. v.named n q e; names = λ n q e d m. v.names n q e m })

    self : stepped.heap.cell r ≡ t.heap.cell r
    self = move_names_self r entered (names_at t r) once (λ n e. ground (arith, v.named n r))

    cell_id : (q : ℕ) → (id_at stepped q) ≡ (id_at t q)
    cell_id q = ap k.id_of (same.cells q) ∙ k.id-with_names (t.heap.cell q) _

    byid_same : stepped.byid ≡ entered.byid
    byid_same = ap (λ (u : Tables k ix). u.byid) same.tables

    pub step-Loaded : Loaded h (r ∷ done) stepped
    unfolding holds
    step-Loaded = record {
      ids = λ n q e. ground (
        arith,
        byid_same,
        cell_id q,
        v.ids n q,
        GoMap.get-put t.byid (id_at t r) r n,
        str_eq_iff (id_at t r) n,
      );
      listed = λ q e. ground (
        arith,
        byid_same,
        cell_id q,
        v.listed q,
        GoMap.get-put t.byid (id_at t r) r (id_at t q),
        str_eq_iff (id_at t r) (id_at t q),
      );
      named = λ n q e.
          ground
            (arith, self, others.named n q, v.named n q, get-move_names r entered (names_at t r) n);
      names = λ n q e m.
          ground (arith, self, others.names n q, get-move_names r entered (names_at t r) n);
      same_id = λ q. cell_id q ∙ v.same_id q;
      untouched = λ q e.
          move_names_other r entered (names_at t r) q (ground arith)
            (λ n. ground (arith, v.named n q))
          ∙ v.untouched q (ground arith);
    }
