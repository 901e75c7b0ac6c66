-- ===== src/Containers/Invariant/Names.antt =====
-- SetNames of containers.go keeps the tables in agreement: a name that another container has moves over.
use containers_storage.Prelude.{
  ℕ, ◌≡◌, refl, ap, Bool, true, false, not, ◌&&◌, Option, none, some, List, [], ◌∷◌, arith, Str,
  str_eq, str_eq_iff, elem, holds, if◌then◌else◌, ◌==◌, Option-cases, inl, inr,
}
use containers_storage.Prelude.GoMap
use containers_storage.Prelude.GoMap.{GoMap}
use containers_storage.Names.Dedupe.{elem-without_value}
use containers_storage.Containers.{Container, ContainerStore, Platform}
use containers_storage.Containers.Delete.{unname_all}
use containers_storage.Containers.Changes.{take_name, take_names, rename}
use containers_storage.Containers.Invariant.{Inv, Inv-of_names}
use containers_storage.Containers.Invariant.Delete.{get-unname_all}

abbrev pub is_holder : ℕ → Option ℕ → Bool
is_holder q none = false
is_holder q (some h) = h == q

module _ {p : Platform} where
  -- `t` differs from `s` in the names of records and in the table of names alone.
  pub record SameButNames (s t : ContainerStore p) : Type 0 where
    pub tables : t ≡ record s {
      heap = record s.heap { cell = t.heap.cell };
      byname = t.byname;
      world = t.world;
    }
    pub cells : (q : ℕ) → t.heap.cell q ≡ record (s.heap.cell q) { names = (t.heap.cell q).names }

  -- The names of all records in `live` but `r` are those that the table of names has for them.
  pub record Others (r : ℕ) (live : List ℕ) (s : ContainerStore p) : Type 0 where
    pub named :
        (n : Str) (q : ℕ)
        → GoMap.get s.byname n ≡ some q
        → (r == q) ≡ false
        → (holds q live ≡ true) × (elem n (s.heap.cell q).names ≡ true)
    pub names :
        (n : Str) (q : ℕ)
        → holds q live ≡ true
        → (r == q) ≡ false
        → elem n (s.heap.cell q).names ≡ true
        → GoMap.get s.byname n ≡ some q

  SameButNames-refl : (s : ContainerStore p) → SameButNames s s
  SameButNames-refl s = record { tables = refl; cells = λ q. refl }

  SameButNames-trans :
      {s t u : ContainerStore p} → SameButNames s t → SameButNames t u → SameButNames s u
  SameButNames-trans a b = record {
    tables = cc (a.tables, b.tables);
    cells = λ q. cc (a.cells q, b.cells q);
  }

  pub take_name-SameButNames :
      (r : ℕ) (s : ContainerStore p) (name : Str) → SameButNames s (take_name r s name)
  unfolding take_name
  take_name-SameButNames r s name = elim (Option-cases (GoMap.get s.byname name)) [
    | inl e ↦ record { tables = ground arith; cells = λ q. ground arith }
    | inr (holder, e) ↦ record { tables = ground arith; cells = λ q. ground arith }
  ]

  pub get-take_name :
      (r : ℕ) (s : ContainerStore p) (name n : Str)
      → GoMap.get (take_name r s name).byname n
        ≡ (if str_eq name n then some r else GoMap.get s.byname n)
  unfolding take_name
  get-take_name r s name n = ground (arith, GoMap.get-put s.byname name r n)

  -- A record loses the name where the table gave it that name, and keeps all others.
  elem-take_name :
      (r : ℕ) (s : ContainerStore p) (name n : Str) (q : ℕ)
      → elem n ((take_name r s name).heap.cell q).names
        ≡ elem n (s.heap.cell q).names
          && not (str_eq name n && is_holder q (GoMap.get s.byname name))
  unfolding take_name
  elem-take_name r s name n q = elim (Option-cases (GoMap.get s.byname name)) [
    | inl e ↦ ground arith
    | inr (holder, e) ↦ ground (arith, elem-without_value (s.heap.cell holder).names name n)
  ]

  take_name-Others :
      (r : ℕ) (live : List ℕ) (s : ContainerStore p) (name : Str)
      → Others r live s
      → Others r live (take_name r s name)
  take_name-Others r live s name k = record {
    named = λ n q h d. ground (
      arith,
      get-take_name r s name n,
      elem-take_name r s name n q,
      k.named n q,
      str_eq_iff name n,
    );
    names = λ n q h d e. ground (
      arith,
      get-take_name r s name n,
      elem-take_name r s name n q,
      k.names n q,
      str_eq_iff name n,
    );
  }

  pub take_names-SameButNames :
      (r : ℕ) (s : ContainerStore p) (names : List Str) → SameButNames s (take_names r s names)
  unfolding take_names
  take_names-SameButNames r s [] = SameButNames-refl s
  take_names-SameButNames r s (name ∷ names) =
      SameButNames-trans (take_name-SameButNames r s name)
        (take_names-SameButNames r (take_name r s name) names)

  pub get-take_names :
      (r : ℕ) (s : ContainerStore p) (names : List Str) (n : Str)
      → GoMap.get (take_names r s names).byname n
        ≡ (if elem n names then some r else GoMap.get s.byname n)
  unfolding take_names elem
  get-take_names r s [] n = refl
  get-take_names r s (name ∷ names) n =
      rw (get-take_names r (take_name r s name) names n) (ground (arith, get-take_name r s name n))

  pub take_names-Others :
      (r : ℕ) (live : List ℕ) (s : ContainerStore p) (names : List Str)
      → Others r live s
      → Others r live (take_names r s names)
  unfolding take_names
  take_names-Others r live s [] k = k
  take_names-Others r live s (name ∷ names) k =
      take_names-Others r live (take_name r s name) names (take_name-Others r live s name k)

module _ {p : Platform} (r : ℕ) (names : List Str) (s : ContainerStore p) (v : Inv s)
    (live : holds r s.containers ≡ true) where
  -- The store after the old names of `r` are deleted from the table of names, before the loop.
  abbrev unnamed : ContainerStore p
  unnamed = record s { byname = unname_all s.byname (s.heap.cell r).names }

  unnamed-Others : Others r s.containers unnamed
  unnamed-Others = record {
    named = λ n q h d. ground (arith, get-unname_all s.byname (s.heap.cell r).names n, v.named n q);
    names = λ n q h d e.
        ground (arith, get-unname_all s.byname (s.heap.cell r).names n, v.names n q, v.names n r);
  }

  -- What SetNames leaves of the tables: the names of `r` are the new ones, and each of them is taken
  -- from whoever had it.
  pub get-rename :
      (n : Str)
      → GoMap.get (rename r names s).byname n ≡ (
          if elem n names
          then some r
          else if elem n (s.heap.cell r).names
          then none
          else GoMap.get s.byname n)
  unfolding rename
  get-rename n =
      rw (get-take_names r unnamed names n)
        (ground (arith, get-unname_all s.byname (s.heap.cell r).names n))

  abbrev taken : ContainerStore p
  taken = take_names r unnamed names

  taken_same : SameButNames unnamed taken
  taken_same = take_names-SameButNames r unnamed names

  taken-Others : Others r s.containers taken
  taken-Others = take_names-Others r s.containers unnamed names unnamed-Others

  pub rename-SameButNames : SameButNames s (rename r names s)
  unfolding rename
  rename-SameButNames = record {
    tables = ground (arith, taken_same.tables);
    cells = λ q. ground (arith, taken_same.cells q);
  }

  pub names-rename : ((rename r names s).heap.cell r).names ≡ names
  unfolding rename
  names-rename = ground arith

  -- Setting the names of a listed record keeps the tables in agreement.
  pub rename-Inv : Inv (rename r names s)
  unfolding rename
  rename-Inv =
      Inv-of_names s (rename r names s) v (rename_same.tables)
        (λ q. ap (λ (c : Container). c.id) (rename_same.cells q))
        (λ q. ap (λ (c : Container). c.layer_id) (rename_same.cells q))
        (λ n q h. ground (
          arith,
          get-rename n,
          get-take_names r unnamed names n,
          get-unname_all s.byname (s.heap.cell r).names n,
          taken-Others.named n q,
          v.named n q,
          ap (λ (u : ContainerStore p). u.containers) taken_same.tables,
        ))
        (λ n q h e. ground (
          arith,
          get-rename n,
          get-take_names r unnamed names n,
          get-unname_all s.byname (s.heap.cell r).names n,
          taken-Others.names n q,
          names-rename,
          ap (λ (u : ContainerStore p). u.containers) taken_same.tables,
        ))
    where
      rename_same : SameButNames s (rename r names s)
      rename_same = rename-SameButNames
