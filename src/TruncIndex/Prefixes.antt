-- ===== src/TruncIndex/Prefixes.antt =====
-- What lookups by prefix find in an index whose tree and table of ids agree (truncindex.go).
use containers_storage.Prelude.{
  ◌≡◌, refl, Bool, true, false, not, ◌&&◌, ◌||◌, List, [], ◌∷◌, arith, Str, str_eq, str_eq_iff,
  str_eq_refl, elem, distinct, is_prefix, is_some, if◌then◌else◌,
}
use containers_storage.Prelude.GoMap
use containers_storage.Prelude.Exec.{Result, ok, fails, ambiguous_prefix, empty_prefix}
use containers_storage.TruncIndex.{
  TruncIndex, has_space, add_id, add_all, new_trunc_index, delete, visit, found, get,
}
use containers_storage.TruncIndex.Patricia.{Trie}

-- The ids that the index holds.
abbrev pub contains : {trie : Trie} → TruncIndex trie → Str → Bool
contains idx k = is_some (GoMap.get idx.ids k)

-- An id that `addID` accepts.
abbrev pub proper : Str → Bool
proper k = not (has_space k) && not (str_eq k [])

pub record IsValid {trie : Trie} (idx : TruncIndex trie) : Type 0 where
  pub agree : (k : Str) → trie.stored idx.tree k ≡ contains idx k
  pub all_proper : (k : Str) → contains idx k ≡ true → proper k ≡ true

module _ {trie : Trie} where
  new-IsValid : IsValid {trie = trie} (record { tree = trie.new; ids = GoMap.empty })
  new-IsValid = record {
    agree = λ k. ground (arith, trie.stored_new k, GoMap.get-empty {V = Unit {0}} k);
    all_proper = λ k h. ground (arith, GoMap.get-empty {V = Unit {0}} k);
  }

  pub add_id-IsValid : (idx : TruncIndex trie) (id : Str) → IsValid idx → IsValid (add_id idx id).1
  unfolding add_id
  add_id-IsValid idx id v = record {
    agree = λ k.
        ground (arith, v.agree k, trie.stored_insert idx.tree id k, GoMap.get-put idx.ids id tt k);
    all_proper =
        λ k h. ground (arith, v.all_proper k, GoMap.get-put idx.ids id tt k, str_eq_iff id k);
  }

  -- What `addID` adds.
  pub contains-add_id :
      (idx : TruncIndex trie) (id k : Str)
      → contains (add_id idx id).1 k ≡ (proper id && str_eq id k) || contains idx k
  unfolding add_id
  contains-add_id idx id k = ground (arith, GoMap.get-put idx.ids id tt k, str_eq_iff id k)

  pub add_all-IsValid :
      (idx : TruncIndex trie) (ids : List Str) → IsValid idx → IsValid (add_all idx ids)
  unfolding add_all
  add_all-IsValid idx [] v = v
  add_all-IsValid idx (id ∷ ids) v = add_all-IsValid (add_id idx id).1 ids (add_id-IsValid idx id v)

  pub contains-add_all :
      (idx : TruncIndex trie) (ids : List Str) (k : Str)
      → contains (add_all idx ids) k ≡ (proper k && elem k ids) || contains idx k
  unfolding add_all elem
  contains-add_all idx [] k = ground arith
  contains-add_all idx (id ∷ ids) k =
      rw (contains-add_all (add_id idx id).1 ids k, contains-add_id idx id k)
        (ground (arith, str_eq_iff id k))

  pub delete-IsValid : (idx : TruncIndex trie) (id : Str) → IsValid idx → IsValid (delete idx id).1
  unfolding delete
  delete-IsValid idx id v = record {
    agree = λ k.
        ground (arith, v.agree k, trie.stored_remove idx.tree id k, GoMap.get-del idx.ids id k);
    all_proper = λ k h. ground (arith, v.all_proper k, GoMap.get-del idx.ids id k);
  }

  pub contains-delete :
      (idx : TruncIndex trie) (id k : Str)
      → IsValid idx
      → contains (delete idx id).1 k ≡ (if str_eq id k then false else contains idx k)
  unfolding delete
  contains-delete idx id k v =
      ground (arith, GoMap.get-del idx.ids id k, v.all_proper k, str_eq_iff id k)

  -- On a valid index `Add` fails exactly for an id with a space, the empty id and an id that is there,
  -- and `Delete` for one that is not there; `Add` adds at most its argument, and `Delete` removes
  -- exactly its argument, also where other ids start with it.
  pub updates :
      (idx : TruncIndex trie) (id k : Str)
      → IsValid idx
      → (is_some (add_id idx id).0 ≡ not (proper id) || contains idx id)
        × (is_some (delete idx id).0 ≡ not (contains idx id))
        × (contains (add_id idx id).1 k ≡ (proper id && str_eq id k) || contains idx k)
        × (contains (delete idx id).1 k ≡ (if str_eq id k then false else contains idx k))
  unfolding add_id delete
  updates idx id k v = (
    ground (arith, v.agree id, trie.insert_fresh idx.tree id),
    ground (arith, v.agree id, trie.remove_found idx.tree id, v.all_proper id),
    contains-add_id idx id k,
    contains-delete idx id k v,
  )

module _ (trie : Trie) where
  pub new_trunc_index-IsValid : (ids : List Str) → IsValid {trie = trie} (new_trunc_index ids)
  unfolding new_trunc_index
  new_trunc_index-IsValid ids = add_all-IsValid _ ids new-IsValid

  pub contains-new_trunc_index :
      (ids : List Str) (k : Str)
      → contains (new_trunc_index {trie = trie} ids) k ≡ proper k && elem k ids
  unfolding new_trunc_index
  contains-new_trunc_index ids k = ground (
    arith,
    contains-add_all {trie = trie} (record { tree = trie.new; ids = GoMap.empty }) ids k,
    GoMap.get-empty {V = Unit {0}} k,
  )

-- The visitor keeps the one key of a list without the empty key, and fails at a second one.
visit_all : Str → List Str → Result Str
visit_all id [] = ok id
visit_all id (k ∷ ks) = fails ambiguous_prefix

visit_nonempty : (id : Str) (ks : List Str) → str_eq id [] ≡ false → visit id ks ≡ visit_all id ks
unfolding visit visit_all
visit_nonempty id [] h = refl
visit_nonempty id (k ∷ ks) h = rw h

-- The outcome of a visit from the start.
visit_outcome : List Str → Result Str
visit_outcome [] = ok []
visit_outcome (k ∷ ks) = visit_all k ks

visit-eq-outcome : (ks : List Str) → elem [] ks ≡ false → visit [] ks ≡ visit_outcome ks
unfolding visit visit_outcome elem str_eq
visit-eq-outcome [] h = refl
visit-eq-outcome (k ∷ ks) h = visit_nonempty k ks (ground (arith, h))

found_sound :
    (ks : List Str) (k j : Str)
    → elem [] ks ≡ false
    → found (visit_outcome ks) ≡ ok k
    → (elem k ks ≡ true) × (elem j ks ≡ true → j ≡ k)
unfolding visit_outcome visit_all found elem str_eq
found_sound [] k j e h = ground arith
found_sound (x ∷ []) k j e h = (ground (arith, str_eq_iff x k), λ m. ground (arith, str_eq_iff x j))
found_sound (x ∷ y ∷ ks) k j e h = cc

found_unique :
    (ks : List Str) (k : Str)
    → elem [] ks ≡ false
    → distinct ks ≡ true
    → elem k ks ≡ true
    → ((j : Str) → elem j ks ≡ true → j ≡ k)
    → found (visit_outcome ks) ≡ ok k
unfolding visit_outcome visit_all found elem distinct
found_unique [] k e d m only = cc
found_unique (x ∷ []) k e d m only = ground (arith, str_eq_iff x k, str_eq_iff x [])
found_unique (x ∷ y ∷ ks) k e d m only =
    ground (arith, only x, only y, str_eq_refl x, str_eq_refl y, str_eq_iff x k, str_eq_iff y x)

module _ {trie : Trie} (idx : TruncIndex trie) (v : IsValid idx) where
  empty_not_stored : (s : Str) → elem [] (trie.below idx.tree s) ≡ false
  empty_not_stored s =
      ground (arith, trie.elem_below idx.tree s [], v.agree [], v.all_proper [], str_eq_refl [])

  get-eq-outcome :
      (s : Str)
      → get idx s ≡ (
          if str_eq s [] then fails empty_prefix else found (visit_outcome (trie.below idx.tree s)))
  unfolding get
  get-eq-outcome s = rw (visit-eq-outcome (trie.below idx.tree s) (empty_not_stored s))

  found_of_get :
      (s k : Str) → get idx s ≡ ok k → found (visit_outcome (trie.below idx.tree s)) ≡ ok k
  found_of_get s k h = ground (arith, get-eq-outcome s)

  -- The keys that the visitor meets.
  elem-below : (s j : Str) → elem j (trie.below idx.tree s) ≡ contains idx j && is_prefix s j
  elem-below s j = ground (arith, trie.elem_below idx.tree s j, v.agree j)

  -- On a valid index, what `Get` returns for a prefix is an id of the index that starts with it, and
  -- no other id of the index does.
  pub get_sound :
      (s k : Str)
      → get idx s ≡ ok k
      → (contains idx k ≡ true)
        × (is_prefix s k ≡ true)
        × ((j : Str) → contains idx j ≡ true → is_prefix s j ≡ true → j ≡ k)
  get_sound s k h = (
    ground (arith, met k, elem-below s k),
    ground (arith, met k, elem-below s k),
    λ j m p. (met j).1 (ground (arith, elem-below s j)),
  )
    where
      met :
          (j : Str)
          → (elem k (trie.below idx.tree s) ≡ true)
            × (elem j (trie.below idx.tree s) ≡ true → j ≡ k)
      met j = found_sound (trie.below idx.tree s) k j (empty_not_stored s) (found_of_get s k h)

  -- On a valid index, `Get` of a non-empty prefix of one id of the index only returns that id.
  pub get_complete :
      (s k : Str)
      → str_eq s [] ≡ false
      → contains idx k ≡ true
      → is_prefix s k ≡ true
      → ((j : Str) → contains idx j ≡ true → is_prefix s j ≡ true → j ≡ k)
      → get idx s ≡ ok k
  get_complete s k h m p only =
      rw (get-eq-outcome s, h)
        (found_unique (trie.below idx.tree s) k (empty_not_stored s)
          (trie.distinct_below idx.tree s) (ground (arith, elem-below s k))
          (λ j e. only j (ground (arith, elem-below s j)) (ground (arith, elem-below s j))))
