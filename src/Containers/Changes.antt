-- ===== src/Containers/Changes.antt =====
-- The methods of containers.go that change one record: names, metadata and flags.
use containers_storage.Prelude.{ℕ, Option, none, some, List, [], ◌∷◌, Str}
use containers_storage.Prelude.GoMap
use containers_storage.Prelude.GoMap.{GoMap}
use containers_storage.Prelude.Exec.{container_unknown, fails, Exec}
use containers_storage.Names.{dedupe_names}
use containers_storage.Containers.{
  ContainerStore, Platform, Value, modify, save, lookup, remove_name,
}
use containers_storage.Containers.Delete.{unname_all}

module _ {p : Platform} where
  -- One round of SetNames: the name leaves the container that has it.
  unfoldable pub take_name : ℕ → ContainerStore p → Str → ContainerStore p
  unfolding remove_name
  take_name r s name =
      let t : ContainerStore p = elim (GoMap.get s.byname name) [
        | none ↦ s
        | some holder ↦ remove_name s holder name
      ] in
      record t { byname = GoMap.put t.byname name r }

  unfoldable pub take_names : ℕ → ContainerStore p → List Str → ContainerStore p
  unfolding take_name
  take_names r s [] = s
  take_names r s (name ∷ names) = take_names r (take_name r s name) names

  -- What SetNames does to the tables.
  unfoldable pub rename : ℕ → List Str → ContainerStore p → ContainerStore p
  unfolding take_names unname_all
  rename r names s =
      let t =
        take_names r (record s { byname = unname_all s.byname (s.heap.cell r).names }) names in
      modify t r (record (t.heap.cell r) { names = names })

  abbrev pub change_at :
      Option ℕ → (ℕ → ContainerStore p → ContainerStore p) → Exec (ContainerStore p) (Unit {0})
  change_at none change s = (fails container_unknown, s)
  change_at (some r) change s = save (change r s)

  unfoldable pub set_names : Str → List Str → Exec (ContainerStore p) (Unit {0})
  unfolding rename
  set_names id names s = change_at (lookup s id) (λ r. rename r (dedupe_names names)) s

  unfoldable pub set_metadata : Str → Str → Exec (ContainerStore p) (Unit {0})
  set_metadata id metadata s =
      change_at (lookup s id) (λ r t. modify t r (record (t.heap.cell r) { metadata = metadata })) s

  unfoldable pub set_flag : Str → Str → Value → Exec (ContainerStore p) (Unit {0})
  set_flag id flag value s =
      change_at (lookup s id)
        (λ r t.
          let c = t.heap.cell r in modify t r (record c { flags = GoMap.put c.flags flag value }))
        s

  unfoldable pub clear_flag : Str → Str → Exec (ContainerStore p) (Unit {0})
  clear_flag id flag s =
      change_at (lookup s id)
        (λ r t. let c = t.heap.cell r in modify t r (record c { flags = GoMap.del c.flags flag })) s
