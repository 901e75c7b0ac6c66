-- ===== src/Directory/Names.antt =====
-- Names that move between the records of a directory.
use containers_storage.Prelude.{
  ℕ, ◌≡◌, refl, ap, sym, ◌∙◌, true, false, not, ◌&&◌, none, some, List, [], ◌∷◌, arith, Str, str_eq,
  str_eq_iff, elem, holds, if◌then◌else◌, ◌==◌, Option-cases, inl, inr,
}
use containers_storage.Prelude.GoMap
use containers_storage.Names.{without_value}
use containers_storage.Names.Dedupe.{elem-without_value}
use containers_storage.TruncIndex.Interface.{IdIndex}
use containers_storage.Containers.Delete.{unname_all}
use containers_storage.Containers.Invariant.Delete.{get-unname_all}
use containers_storage.Containers.Invariant.Names.{is_holder}
use containers_storage.Directory.{Kind, Tables, names_at, move_name, move_names, set_names_of}
use containers_storage.Directory.Agrees.{Agrees, Agrees-of_names}

module _ {k : Kind} {ix : IdIndex} where
  -- `t` differs from `s` in the names of records and in the table of names alone.
  pub record SameButNames (s t : Tables k ix) : Type 0 where
    pub tables : t ≡ record s { heap = record s.heap { cell = t.heap.cell }; byname = t.byname }
    pub cells : (q : ℕ) → t.heap.cell q ≡ k.with_names (s.heap.cell q) (names_at t q)

  -- The names of all records in `live` but `r` are those that the table of names has for them.
  pub record Others (r : ℕ) (live : List ℕ) (s : Tables k ix) : Type 0 where
    pub named :
        (n : Str) (q : ℕ)
        → GoMap.get s.byname n ≡ some q
        → (r == q) ≡ false
        → (holds q live ≡ true) × (elem n (names_at s q) ≡ true)
    pub names :
        (n : Str) (q : ℕ)
        → holds q live ≡ true
        → (r == q) ≡ false
        → elem n (names_at s q) ≡ true
        → GoMap.get s.byname n ≡ some q

  SameButNames-refl : (s : Tables k ix) → SameButNames s s
  SameButNames-refl s = record {
    tables = refl;
    cells = λ q. sym (k.with_names_self (s.heap.cell q));
  }

  SameButNames-trans :
      {s t u : Tables k ix} → SameButNames s t → SameButNames t u → SameButNames s u
  SameButNames-trans {s} {t} {u} a b = record {
    tables = cc (a.tables, b.tables);
    cells = λ q.
        cc (a.cells q, b.cells q, k.with_names_twice (s.heap.cell q) (names_at t q) (names_at u q));
  }

  pub move_name-SameButNames :
      (r : ℕ) (s : Tables k ix) (name : Str) → SameButNames s (move_name r s name)
  unfolding move_name
  move_name-SameButNames r s name = elim (Option-cases (GoMap.get s.byname name)) [
    | inl e ↦ record {
      tables = ground arith;
      cells = λ q. ground (arith, k.with_names_self (s.heap.cell q));
    }
    | inr (holder, e) ↦ record {
      tables = ground arith;
      cells = λ q. ground (
        arith,
        k.with_names_self (s.heap.cell q),
        k.names-with_names (s.heap.cell holder) (without_value (names_at s holder) name),
      );
    }
  ]

  pub get-move_name :
      (r : ℕ) (s : Tables k ix) (name n : Str)
      → GoMap.get (move_name r s name).byname n
        ≡ (if str_eq name n then some r else GoMap.get s.byname n)
  unfolding move_name
  get-move_name r s name n = ground (arith, GoMap.get-put s.byname name r n)

  -- A record loses the name where the table gave it that name, and keeps all others.
  elem-move_name :
      (r : ℕ) (s : Tables k ix) (name n : Str) (q : ℕ)
      → elem n (names_at (move_name r s name) q)
        ≡ elem n (names_at s q) && not (str_eq name n && is_holder q (GoMap.get s.byname name))
  unfolding move_name
  elem-move_name r s name n q = elim (Option-cases (GoMap.get s.byname name)) [
    | inl e ↦ ground arith
    | inr (holder, e) ↦ ground (
      arith,
      elem-without_value (names_at s holder) name n,
      k.names-with_names (s.heap.cell holder) (without_value (names_at s holder) name),
    )
  ]

  move_name-Others :
      (r : ℕ) (live : List ℕ) (s : Tables k ix) (name : Str)
      → Others r live s
      → Others r live (move_name r s name)
  move_name-Others r live s name w = record {
    named = λ n q h d. ground (
      arith,
      get-move_name r s name n,
      elem-move_name r s name n q,
      w.named n q,
      str_eq_iff name n,
    );
    names = λ n q h d e. ground (
      arith,
      get-move_name r s name n,
      elem-move_name r s name n q,
      w.names n q,
      str_eq_iff name n,
    );
  }

  pub move_names-SameButNames :
      (r : ℕ) (s : Tables k ix) (names : List Str) → SameButNames s (move_names r s names)
  unfolding move_names
  move_names-SameButNames r s [] = SameButNames-refl s
  move_names-SameButNames r s (name ∷ names) =
      SameButNames-trans (move_name-SameButNames r s name)
        (move_names-SameButNames r (move_name r s name) names)

  pub get-move_names :
      (r : ℕ) (s : Tables k ix) (names : List Str) (n : Str)
      → GoMap.get (move_names r s names).byname n
        ≡ (if elem n names then some r else GoMap.get s.byname n)
  unfolding move_names elem
  get-move_names r s [] n = refl
  get-move_names r s (name ∷ names) n =
      rw (get-move_names r (move_name r s name) names n) (ground (arith, get-move_name r s name n))

  pub move_names-Others :
      (r : ℕ) (live : List ℕ) (s : Tables k ix) (names : List Str)
      → Others r live s
      → Others r live (move_names r s names)
  unfolding move_names
  move_names-Others r live s [] w = w
  move_names-Others r live s (name ∷ names) w =
      move_names-Others r live (move_name r s name) names (move_name-Others r live s name w)

module _ {k : Kind} {ix : IdIndex} (r : ℕ) (names : List Str) (s : Tables k ix) (v : Agrees s)
    (live : holds r s.items ≡ true) where
  -- The store after the old names of `r` are deleted from the table of names, before the loop.
  abbrev unnamed : Tables k ix
  unnamed = record s { byname = unname_all s.byname (names_at s r) }

  unnamed-Others : Others r s.items unnamed
  unnamed-Others = record {
    named = λ n q h d. ground (arith, get-unname_all s.byname (names_at s r) n, v.named n q);
    names = λ n q h d e.
        ground (arith, get-unname_all s.byname (names_at s r) n, v.names n q, v.names n r);
  }

  -- What SetNames leaves of the tables: the names of `r` are the new ones, and each of them is taken
  -- from whoever had it.
  pub get-set_names_of :
      (n : Str)
      → GoMap.get (set_names_of r names s).byname n ≡ (
          if elem n names
          then some r
          else if elem n (names_at s r)
          then none
          else GoMap.get s.byname n)
  unfolding set_names_of
  get-set_names_of n =
      rw (get-move_names r unnamed names n)
        (ground (arith, get-unname_all s.byname (names_at s r) n))

  abbrev taken : Tables k ix
  taken = move_names r unnamed names

  taken_same : SameButNames unnamed taken
  taken_same = move_names-SameButNames r unnamed names

  taken-Others : Others r s.items taken
  taken-Others = move_names-Others r s.items unnamed names unnamed-Others

  pub set_names_of-SameButNames : SameButNames s (set_names_of r names s)
  unfolding set_names_of
  set_names_of-SameButNames = record {
    tables = ground (arith, taken_same.tables);
    cells = λ q. ground (
      arith,
      taken_same.cells q,
      k.with_names_twice (s.heap.cell q) (names_at taken q) names,
      k.names-with_names (taken.heap.cell q) names,
    );
  }

  pub names-set_names_of : names_at (set_names_of r names s) r ≡ names
  unfolding set_names_of
  names-set_names_of = ground (arith, k.names-with_names (taken.heap.cell r) names)

  names_at-set_names_of :
      (q : ℕ) → names_at (set_names_of r names s) q ≡ (if r == q then names else names_at taken q)
  unfolding set_names_of
  names_at-set_names_of q = ground (arith, k.names-with_names (taken.heap.cell r) names)

  -- Setting the names of a listed record keeps the tables in agreement.
  pub set_names_of-Agrees : Agrees (set_names_of r names s)
  unfolding set_names_of
  set_names_of-Agrees =
      Agrees-of_names s (set_names_of r names s) v (rename_same.tables)
        (λ q. ap k.id_of (rename_same.cells q) ∙ k.id-with_names (s.heap.cell q) _)
        (λ n q h. ground (
          arith,
          get-set_names_of n,
          names_at-set_names_of q,
          get-move_names r unnamed names n,
          get-unname_all s.byname (names_at s r) n,
          taken-Others.named n q,
          v.named n q,
          ap (λ (u : Tables k ix). u.items) taken_same.tables,
        ))
        (λ n q h e. ground (
          arith,
          get-set_names_of n,
          names_at-set_names_of q,
          get-move_names r unnamed names n,
          get-unname_all s.byname (names_at s r) n,
          taken-Others.names n q,
          names-set_names_of,
          ap (λ (u : Tables k ix). u.items) taken_same.tables,
        ))
    where
      rename_same : SameButNames s (set_names_of r names s)
      rename_same = set_names_of-SameButNames
