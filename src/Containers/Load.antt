-- ===== src/Containers/Load.antt =====
-- containerStore.Load of containers.go: the tables are built anew from the records on disk. The local
-- maps of the method are here the tables of a store that replaces the old one at the end.
use containers_storage.Prelude.{
  ℕ, Bool, true, false, ◌||◌, List, [], ◌∷◌, map, Str, str_eq, is_some, if◌then◌else◌,
}
use containers_storage.Prelude.GoMap
use containers_storage.Prelude.GoMap.{GoMap}
use containers_storage.Prelude.Heap.{Heap, alloc}
use containers_storage.Prelude.Exec.{Result, os_error, ok, fails, panics, diverges, Exec}
use containers_storage.Env.{FileRead, contents, missing, unreadable}
use containers_storage.Containers.{Container, ContainerStore, Platform, containers_path, save}
use containers_storage.Containers.Changes.{take_name}

-- One fresh object for each decoded record.
unfoldable pub alloc_all : Heap Container → List Container → Heap Container × List ℕ
alloc_all h [] = (h, [])
alloc_all h (c ∷ cs) = let (h', rs) = alloc_all (alloc h c) cs in (h', h.next ∷ rs)

module _ {p : Platform} where
  -- The names of one record: a name that is taken leaves the record that has it, and the store has to
  -- be saved.
  unfoldable pub load_names : ℕ → List Str → ContainerStore p × Bool → ContainerStore p × Bool
  unfolding take_name
  load_names r [] (t, need) = (t, need)
  load_names r (name ∷ names) (t, need) =
      load_names r names (take_name r t name, is_some (GoMap.get t.byname name) || need)

  abbrev pub enter_id : ContainerStore p → ℕ → ContainerStore p
  enter_id t r = record t {
    byid = GoMap.put t.byid (t.heap.cell r).id r;
    bylayer = GoMap.put t.bylayer (t.heap.cell r).layer_id r;
  }

  unfoldable pub load_all : List ℕ → ContainerStore p × Bool → ContainerStore p × Bool
  unfolding load_names
  load_all [] (t, need) = (t, need)
  load_all (r ∷ rs) (t, need) =
      load_all rs (load_names r (t.heap.cell r).names (enter_id t r, need))

  abbrev pub blank : ContainerStore p → List Container → ContainerStore p
  blank s cs =
      let (h, rs) = alloc_all s.heap cs in
      record s {
        heap = h;
        containers = rs;
        idindex = p.index.build [];
        byid = GoMap.empty;
        bylayer = GoMap.empty;
        byname = GoMap.empty;
      }

  -- r.idindex = truncindex.NewTruncIndex(idlist)
  abbrev pub with_index : ContainerStore p → ContainerStore p
  with_index t = record t { idindex = p.index.build (map (λ r. (t.heap.cell r).id) t.containers) }

  unfoldable pub rebuild : ContainerStore p → List Container → ContainerStore p × Bool
  unfolding alloc_all load_all
  rebuild s cs =
      let (t, need) = load_all (blank s cs).containers (blank s cs, false) in (with_index t, need)

  abbrev pub save_if : ContainerStore p × Bool → Result (Unit {0}) × ContainerStore p
  save_if (t, need) = if need then save t else (ok tt, t)

  unfoldable pub load_data : Str → Exec (ContainerStore p) (Unit {0})
  unfolding rebuild
  load_data content s =
      let (good, cs) = p.unmarshal content in
      if str_eq content [] || good then save_if (rebuild s cs) else (ok tt, blank s cs)

  unfoldable pub load_read : FileRead → Exec (ContainerStore p) (Unit {0})
  unfolding load_data
  load_read (contents content) s = load_data content s
  load_read missing s = load_data [] s
  load_read unreadable s = (fails os_error, s)

  unfoldable pub load : Exec (ContainerStore p) (Unit {0})
  unfolding load_read
  load s = load_read (p.env.read_file s.world (containers_path s)) s

  unfoldable pub load_if : Result Bool → Exec (ContainerStore p) (Unit {0})
  unfolding load
  load_if (ok true) s = load s
  load_if (ok false) s = (ok tt, s)
  load_if (fails e) s = (fails e, s)
  load_if panics s = (panics, s)
  load_if diverges s = (diverges, s)

  -- The mutex on loading is left out.
  unfoldable pub reload_if_changed : Exec (ContainerStore p) (Unit {0})
  unfolding load_if
  reload_if_changed s = let (r, w) = p.env.modified s.world in load_if r (record s { world = w })
