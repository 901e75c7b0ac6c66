-- ===== src/Containers/Removal.antt =====
-- What Delete, Wipe and SetNames of containers.go do to the entries of the tables.
use containers_storage.Prelude.{
  ℕ, ◌≡◌, refl, ap, true, false, not, ◌&&◌, none, some, List, [], ◌∷◌, arith, Str, str_eq,
  str_eq_iff, elem, distinct, holds, is_some, if◌then◌else◌, ◌==◌, Option-cases, inl, inr,
}
use containers_storage.Prelude.GoMap
use containers_storage.Prelude.GoMap.{GoMap, elem-keys}
use containers_storage.Prelude.Exec.{ok, continue-ok}
use containers_storage.Names.{dedupe_names}
use containers_storage.Names.Dedupe.{elem-dedupe_names}
use containers_storage.Containers.{ContainerStore, Platform, lookup}
use containers_storage.Containers.Delete.{forget, delete_at, delete, delete_all, wipe}
use containers_storage.Containers.Changes.{rename, set_names}
use containers_storage.Containers.Frame.{SameTables, save-SameTables}
use containers_storage.Containers.Lookup.{lookup-holds}
use containers_storage.Containers.Invariant.{Inv}
use containers_storage.Containers.Invariant.Delete.{
  get-unname_all, holds-forget, delete-Inv, delete_all-Inv,
}
use containers_storage.Containers.Invariant.Names.{get-rename, names-rename}

-- `t` is `s` without the record that `r` points to, and without the entry of its layer, whichever
-- record that leads to.
pub record Removed {p : Platform} (r : ℕ) (s t : ContainerStore p) : Type 0 where
  pub by_id :
      (k : Str)
      → GoMap.get t.byid k ≡ (if str_eq (s.heap.cell r).id k then none else GoMap.get s.byid k)
  pub by_name :
      (n : Str)
      → GoMap.get t.byname n ≡ (if elem n (s.heap.cell r).names then none else GoMap.get s.byname n)
  pub by_layer :
      (l : Str)
      → GoMap.get t.bylayer l
        ≡ (if str_eq (s.heap.cell r).layer_id l then none else GoMap.get s.bylayer l)
  pub indexed :
      (k : Str)
      → p.index.contains t.idindex k
        ≡ (if str_eq (s.heap.cell r).id k then false else p.index.contains s.idindex k)
  pub listed : (q : ℕ) → holds q t.containers ≡ holds q s.containers && not (r == q)
  pub cells : t.heap ≡ s.heap

no_pointers : (rs : List ℕ) → ((q : ℕ) → holds q rs ≡ false) → rs ≡ []
unfolding holds
no_pointers [] h = refl
no_pointers (r ∷ rs) h = ground (arith, h r)

module _ {p : Platform} where
  delete_at-SameTables :
      (r : ℕ) (s : ContainerStore p) → SameTables (forget r s) (delete_at (some r) s).1
  unfolding delete_at
  delete_at-SameTables r s = ground (arith, save-SameTables (forget r s))

  forget-Removed :
      (r : ℕ) (s t : ContainerStore p)
      → Inv s
      → holds r s.containers ≡ true
      → SameTables (forget r s) t
      → Removed r s t
  unfolding forget
  forget-Removed r s t v live e = record {
    by_id = λ k. rw e (GoMap.get-del s.byid (s.heap.cell r).id k);
    by_name = λ n. rw e (get-unname_all s.byname (s.heap.cell r).names n);
    by_layer = λ l. rw e (GoMap.get-del s.bylayer (s.heap.cell r).layer_id l);
    indexed = λ k. rw e (p.index.contains-delete s.idindex (s.heap.cell r).id k v.index_valid);
    listed = λ q. rw e (holds-forget r s v live q);
    cells = ap (λ (u : ContainerStore p). u.heap) e;
  }

  -- Where the tables agree, Delete of an id, name, layer or prefix that leads to a record takes that
  -- record out of the list, its id out of the table of ids and the index, and its names out of the table
  -- of names. The entry of its layer goes too, also where it leads to another record with that layer.
  -- All other entries and the records themselves are as before, whatever the call returns.
  pub delete-Removed :
      (id : Str) (s : ContainerStore p) (r : ℕ)
      → Inv s
      → lookup s id ≡ some r
      → Removed r s (delete id s).1
  unfolding delete
  delete-Removed id s r v e =
      rw e (forget-Removed r s _ v (lookup-holds s v id r e) (delete_at-SameTables r s))

  -- An id in the table wins over names, layers and prefixes.
  lookup_id :
      (s : ContainerStore p) (id : Str) (r : ℕ)
      → GoMap.get s.byid id ≡ some r
      → lookup s id ≡ some r
  unfolding lookup
  lookup_id s id r e = rw e

  byid-delete :
      (id : Str) (s : ContainerStore p) (r : ℕ) (k : Str)
      → Inv s
      → GoMap.get s.byid id ≡ some r
      → GoMap.get (delete id s).1.byid k ≡ (if str_eq id k then none else GoMap.get s.byid k)
  byid-delete id s r k v e =
      ground (arith, (delete-Removed id s r v (lookup_id s id r e)).by_id k, (v.ids id r e).0)

  there_after :
      (id : Str) (ids : List Str) (s : ContainerStore p) (r : ℕ) (j : Str)
      → Inv s
      → GoMap.get s.byid id ≡ some r
      → distinct (id ∷ ids) ≡ true
      → ((i : Str) → elem i (id ∷ ids) ≡ true → is_some (GoMap.get s.byid i) ≡ true)
      → elem j ids ≡ true
      → is_some (GoMap.get (delete id s).1.byid j) ≡ true
  unfolding elem distinct
  there_after id ids s r j v e d there m =
      ground (arith, byid-delete id s r j v e, there j, str_eq_iff id j)

  byid-delete_all :
      (ids : List Str) (s : ContainerStore p) (k : Str)
      → Inv s
      → distinct ids ≡ true
      → ((j : Str) → elem j ids ≡ true → is_some (GoMap.get s.byid j) ≡ true)
      → (delete_all ids s).0 ≡ ok tt
      → GoMap.get (delete_all ids s).1.byid k ≡ (if elem k ids then none else GoMap.get s.byid k)
  unfolding delete_all elem distinct
  byid-delete_all [] s k v d there h = refl
  byid-delete_all (id ∷ ids) s k v d there h = elim (Option-cases (GoMap.get s.byid id)) [
    | inl e ↦ ground (arith, there id, str_eq_iff id id)
    | inr (r, e) ↦
        let t : ContainerStore p = (delete id s).1 in
        let (a, first, rest) = continue-ok (delete id s).0 _ t h in
        let still = λ (j : Str) (m : elem j ids ≡ true). there_after id ids s r j v e d there m in
        rw (first, byid-delete_all ids t k (delete-Inv id s v) (ground arith) still rest)
          (ground (arith, byid-delete id s r k v e))
  ]

  -- Where the tables agree and `range` visits every key once, a Wipe that succeeds leaves no record
  -- listed, and no id and no name in use.
  pub wipe_empties :
      (order : List Str → List Str) (s : ContainerStore p)
      → Inv s
      → ((k : Str) → elem k (order (GoMap.keys s.byid)) ≡ elem k (GoMap.keys s.byid))
      → distinct (order (GoMap.keys s.byid)) ≡ true
      → (wipe order s).0 ≡ ok tt
      → let t = (wipe order s).1 in
        (t.containers ≡ [])
        × ((k : Str) → GoMap.get t.byid k ≡ none)
        × ((n : Str) → GoMap.get t.byname n ≡ none)
  unfolding wipe
  wipe_empties order s v all once h = (
    no_pointers t.containers none_listed,
    gone,
    λ n. elim (Option-cases (GoMap.get t.byname n)) [
      | inl e ↦ e
      | inr (q, e) ↦ ground (arith, w.named n q, none_listed q)
    ],
  )
    where
      ids : List Str
      ids = order (GoMap.keys s.byid)

      t : ContainerStore p
      t = (delete_all ids s).1

      w : Inv t
      w = delete_all-Inv ids s v

      gone : (k : Str) → GoMap.get t.byid k ≡ none
      gone k = ground (
        arith,
        byid-delete_all ids s k v once (λ j m. ground (arith, all j, elem-keys s.byid j)) h,
        all k,
        elem-keys s.byid k,
      )

      none_listed : (q : ℕ) → holds q t.containers ≡ false
      none_listed q = ground (arith, w.listed q, gone (t.heap.cell q).id)

  -- Where the tables agree, SetNames of a record that is found gives it the new names without
  -- repetitions: each of these now leads to it, whoever had it before, its other old names lead
  -- nowhere, and all other names lead where they did, whatever the call returns.
  pub set_names_moves :
      (id : Str) (names : List Str) (s : ContainerStore p) (r : ℕ) (n : Str)
      → Inv s
      → lookup s id ≡ some r
      → let t = (set_names id names s).1 in
        (GoMap.get t.byname n ≡ (
          if elem n names
          then some r
          else if elem n (s.heap.cell r).names
          then none
          else GoMap.get s.byname n))
        × ((t.heap.cell r).names ≡ dedupe_names names)
  unfolding set_names
  set_names_moves id names s r n v e =
      let t = rename r (dedupe_names names) s in
      let live = lookup-holds s v id r e in
      let saved = save-SameTables t in
      rw e (
        ground
            (arith, saved, get-rename r (dedupe_names names) s v live n, elem-dedupe_names names n),
        ground (arith, saved, names-rename r (dedupe_names names) s v live),
      )
