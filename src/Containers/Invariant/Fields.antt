-- ===== src/Containers/Invariant/Fields.antt =====
-- The methods of containers.go that change other fields of a record than its names, and Save, keep the
-- tables in agreement.
use containers_storage.Prelude.{
  ℕ, ◌≡◌, refl, sym, subst, Option, none, some, List, [], arith, Str, str_eq, Bool-cases,
  Option-cases, inl, inr,
}
use containers_storage.Prelude.GoMap.{GoMap}
use containers_storage.Prelude.Exec.{Error, Result, ok, Exec, Keeps, Keeps-bind, continue_keeps}
use containers_storage.Names.{dedupe_names}
use containers_storage.Containers.{
  Container, ContainerStore, Platform, Value, modify, lookup, on_world,
}
use containers_storage.Containers.Changes.{change_at, set_names, set_metadata, set_flag, clear_flag}
use containers_storage.Containers.BigData.{
  with_big_data, note_big_data, write_item, set_big_data, big_data, recorded, remeasure,
  big_data_entry,
}
use containers_storage.Containers.Frame.{save-Inv, Inv-world}
use containers_storage.Containers.Lookup.{lookup-holds}
use containers_storage.Containers.Invariant.{Inv, Inv-of_cells}
use containers_storage.Containers.Invariant.Names.{rename-Inv}

-- The two records have the same keys.
abbrev pub SameKeys : Container → Container → Type 0
SameKeys c d = (c.id ≡ d.id) × (c.names ≡ d.names) × (c.layer_id ≡ d.layer_id)

module _ {p : Platform} where
  pub modify-Inv :
      (s : ContainerStore p) (r : ℕ) (c : Container)
      → SameKeys c (s.heap.cell r)
      → Inv s
      → Inv (modify s r c)
  modify-Inv s r c k v =
      Inv-of_cells s (modify s r c) v refl (λ q. ground (arith, k)) (λ q. ground (arith, k))
        (λ q. ground (arith, k)) refl

  change_at-Inv :
      (o : Option ℕ) (change : ℕ → ContainerStore p → ContainerStore p) (s : ContainerStore p)
      → Inv s
      → ((r : ℕ) → o ≡ some r → Inv (change r s))
      → Inv (change_at o change s).1
  change_at-Inv none change s v h = v
  change_at-Inv (some r) change s v h = save-Inv (change r s) (h r refl)

  pub set_names-Inv :
      (id : Str) (names : List Str) (s : ContainerStore p) → Inv s → Inv (set_names id names s).1
  unfolding set_names
  set_names-Inv id names s v =
      change_at-Inv (lookup s id) _ s v
        (λ r e. rename-Inv r (dedupe_names names) s v (lookup-holds s v id r e))

  pub set_metadata-Inv :
      (id metadata : Str) (s : ContainerStore p) → Inv s → Inv (set_metadata id metadata s).1
  unfolding set_metadata
  set_metadata-Inv id metadata s v =
      change_at-Inv (lookup s id) _ s v (λ r e. modify-Inv s r _ (refl, refl, refl) v)

  pub set_flag-Inv :
      (id flag : Str) (value : Value) (s : ContainerStore p)
      → Inv s
      → Inv (set_flag id flag value s).1
  unfolding set_flag
  set_flag-Inv id flag value s v =
      change_at-Inv (lookup s id) _ s v (λ r e. modify-Inv s r _ (refl, refl, refl) v)

  pub clear_flag-Inv : (id flag : Str) (s : ContainerStore p) → Inv s → Inv (clear_flag id flag s).1
  unfolding clear_flag
  clear_flag-Inv id flag s v =
      change_at-Inv (lookup s id) _ s v (λ r e. modify-Inv s r _ (refl, refl, refl) v)

  note_big_data-Inv :
      (r : ℕ) (key content : Str) (s : ContainerStore p)
      → Inv s
      → Inv (note_big_data r key content s).1
  unfolding note_big_data
  note_big_data-Inv r key content s v =
      let noted : Inv
          (modify s r (with_big_data (s.heap.cell r) key content (p.env.digest_of content))) =
        modify-Inv s r _ (refl, refl, refl) v in
      ground (arith, noted, save-Inv _ noted)

  note_big_data-Keeps :
      (r : ℕ) (key content : Str) → Keeps Inv (note_big_data {p = p} r key content)
  note_big_data-Keeps r key content = record { at = note_big_data-Inv r key content }

  on_world-Keeps : {A : Type 0} (m : Exec p.env.World A) → Keeps Inv (on_world {p = p} m)
  on_world-Keeps m = record { at = λ s v. Inv-world s _ v }

  write_item-Keeps :
      (dir file : Str) (r : ℕ) (key content : Str)
      → Keeps Inv (write_item {p = p} dir file r key content)
  unfolding write_item
  write_item-Keeps dir file r key content =
      Keeps-bind (on_world (p.env.mkdir_all dir)) _ (on_world-Keeps _) (λ _.
        Keeps-bind (on_world (p.env.write_file file content)) _ (on_world-Keeps _)
          (λ _. note_big_data-Keeps r key content))

  pub set_big_data-Inv :
      (id key content : Str) (s : ContainerStore p) → Inv s → Inv (set_big_data id key content s).1
  unfolding set_big_data
  set_big_data-Inv id key content s v = elim (Bool-cases (str_eq key [])) [
    | inl e ↦ rw e v
    | inr e ↦ elim (Option-cases (lookup s id)) [
      | inl o ↦ rw (e, o) v
      | inr (r, o) ↦ rw (e, o) ((write_item-Keeps _ _ r key content).at s v)
    ]
  ]

  big_data_same : (id key : Str) (s : ContainerStore p) → (big_data id key s).1 ≡ s
  unfolding big_data
  big_data_same id key s = ground arith

  recorded_same :
      {A : Type 0} (entries : Container → GoMap A) (e : Error) (id key : Str) (s : ContainerStore p)
      → (recorded entries e id key s).1 ≡ s
  recorded_same entries e id key s = ground arith

  remeasure-Inv :
      {A : Type 0} (entries : Container → GoMap A) (e : Error) (id key : Str) (f : Result Str)
      (s : ContainerStore p)
      → Inv s
      → Inv (remeasure entries e id key f s).1
  unfolding remeasure
  remeasure-Inv entries e id key (ok content) s v =
      continue_keeps Inv (set_big_data id key content s).0 _ _ (set_big_data-Inv id key content s v)
        (λ _ _.
          subst Inv (sym (recorded_same entries e id key _)) (set_big_data-Inv id key content s v))
  remeasure-Inv entries e id key _ s v = v

  pub big_data_entry-Inv :
      {A : Type 0} (entries : Container → GoMap A) (e : Error) (id key : Str) (s : ContainerStore p)
      → Inv s
      → Inv (big_data_entry entries e id key s).1
  unfolding big_data_entry
  big_data_entry-Inv entries e id key s v =
      ground (arith, remeasure-Inv entries e id key (big_data id key s).0 s v)
