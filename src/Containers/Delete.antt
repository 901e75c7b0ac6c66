-- ===== src/Containers/Delete.antt =====
-- containerStore.Delete and Wipe of containers.go.
use containers_storage.Prelude.{
  ℕ, suc, Option, none, some, List, [], ◌∷◌, Str, str_eq, if◌then◌else◌,
}
use containers_storage.Prelude.GoMap
use containers_storage.Prelude.GoMap.{GoMap}
use containers_storage.Prelude.Exec.{container_unknown, ok, fails, Exec, ◌>>◌, continue}
use containers_storage.Slices.{cut_found}
use containers_storage.Containers.{
  Container, ContainerStore, Platform, on_world, save, lookup, data_dir,
}

-- The position of the first candidate with the id.
unfoldable pub index_of : (ℕ → Container) → List ℕ → Str → Option ℕ
index_of cell [] id = none
index_of cell (r ∷ rs) id =
    let rest : Option ℕ = elim (index_of cell rs id) [ none ↦ none | some i ↦ some (suc i) ] in
    if str_eq (cell r).id id then some 0 else rest

-- for _, name := range names { delete(r.byname, name) }
unfoldable pub unname_all : GoMap ℕ → List Str → GoMap ℕ
unname_all byname [] = byname
unname_all byname (name ∷ names) = unname_all (GoMap.del byname name) names

module _ {p : Platform} where
  -- The record that `r` points to is taken out of every table.
  unfoldable pub forget : ℕ → ContainerStore p → ContainerStore p
  unfolding index_of cut_found unname_all
  forget r s =
      let c = s.heap.cell r in
      record s {
        byid = GoMap.del s.byid c.id;
        idindex = (p.index.delete s.idindex c.id).1;
        bylayer = GoMap.del s.bylayer c.layer_id;
        byname = unname_all s.byname c.names;
        containers = cut_found s.containers (index_of s.heap.cell s.containers c.id);
      }

  unfoldable pub delete_at : Option ℕ → Exec (ContainerStore p) (Unit {0})
  unfolding forget
  delete_at none s = (fails container_unknown, s)
  delete_at (some r) s =
      (do save; on_world (p.env.remove_all (data_dir s (s.heap.cell r).id))) (forget r s)

  unfoldable pub delete : Str → Exec (ContainerStore p) (Unit {0})
  unfolding delete_at
  delete id s = delete_at (lookup s id) s

  unfoldable pub delete_all : List Str → Exec (ContainerStore p) (Unit {0})
  unfolding delete
  delete_all [] s = (ok tt, s)
  delete_all (id ∷ ids) s = continue (delete id s).0 (λ _. delete_all ids) (delete id s).1

  -- `order` is the order in which `range` yields the keys of a map.
  unfoldable pub wipe : (List Str → List Str) → Exec (ContainerStore p) (Unit {0})
  unfolding delete_all
  wipe order s = delete_all (order (GoMap.keys s.byid)) s
