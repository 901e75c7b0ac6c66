-- ===== src/Containers/Create.antt =====
-- containerStore.Create of containers.go.
use containers_storage.Prelude.{
  ℕ, zero, suc, Bool, true, false, Option, none, some, List, [], ◌∷◌, ◌++◌, Str, str_eq, codes,
  is_some, if◌then◌else◌,
}
use containers_storage.Prelude.GoMap
use containers_storage.Prelude.GoMap.{GoMap}
use containers_storage.Prelude.Heap.{alloc}
use containers_storage.Prelude.Exec.{
  duplicate_id, duplicate_name, ok, fails, panics, diverges, Exec, pure, ◌>>=◌, ◌>>◌,
}
use containers_storage.IdTools.{IdMap}
use containers_storage.StringId.{generate_id}
use containers_storage.Names.{dedupe_names}
use containers_storage.Containers.{
  Container, ContainerStore, Platform, Value, bool, strings, on_world, save,
}

-- The fields of store.go's ContainerOptions that Create reads; `none` is nil.
pub record ContainerOptions : Type 0 where
  pub flags : Option (GoMap Value)
  pub mount_opts : Option (List Str)
  pub volatile : Bool
  pub uid_map : List IdMap
  pub gid_map : List IdMap

-- options.Flags[k] = v, which panics on a nil map
abbrev pub set_option : Option (GoMap Value) → Str → Value → Option (Option (GoMap Value))
set_option none k v = none
set_option (some m) k v = some (some (GoMap.put m k v))

-- The flags after Create has added those of MountOpts and Volatile; `none` is the panic.
unfoldable pub option_flags : ContainerOptions → Option (GoMap Value)
option_flags o = elim (add_mount_opts o.mount_opts o.flags) [
  | none ↦ none
  | some m ↦ add_volatile o.volatile m
]
  where
    add_mount_opts : Option (List Str) → Option (GoMap Value) → Option (Option (GoMap Value))
    add_mount_opts none m = some m
    add_mount_opts (some opts) m = set_option m (codes "MountOpts") (strings opts)

    or_empty : Option (GoMap Value) → GoMap Value
    or_empty none = GoMap.empty
    or_empty (some m) = m

    add_volatile : Bool → Option (GoMap Value) → Option (GoMap Value)
    add_volatile false m = some (or_empty m)
    add_volatile true m = elim (set_option m (codes "Volatile") (bool true)) [
      | none ↦ none
      | some m' ↦ some (or_empty m')
    ]

-- Some name is a key of the map.
unfoldable pub any_in_use : GoMap ℕ → List Str → Bool
any_in_use byname [] = false
any_in_use byname (name ∷ names) =
    let rest = any_in_use byname names in if is_some (GoMap.get byname name) then true else rest

-- for _, name := range names { r.byname[name] = container }
unfoldable pub name_all : GoMap ℕ → List Str → ℕ → GoMap ℕ
name_all byname [] r = byname
name_all byname (name ∷ names) r = name_all (GoMap.put byname name r) names r

unfoldable pub new_container :
    Str → List Str → Str → Str → Str → ContainerOptions → GoMap Value → ℕ → Container
new_container id names image layer metadata options flags now = record {
  id = id;
  names = names;
  image_id = image;
  layer_id = layer;
  metadata = metadata;
  big_data_names = [];
  big_data_sizes = GoMap.empty;
  big_data_digests = GoMap.empty;
  created = now;
  uid_map = options.uid_map;
  gid_map = options.gid_map;
  flags = flags;
}

module _ {p : Platform} where
  -- The loop that draws ids until one is not in use; its rounds, and those of each draw, are bounded.
  unfoldable pub fresh_id : ℕ → ℕ → Exec (ContainerStore p) Str
  fresh_id draws zero s = (diverges, s)
  fresh_id draws (suc fuel) s =
      let (r, t) = on_world (generate_id p.env.random draws) s in
      elim r [
        | ok id ↦
            let again = fresh_id draws fuel t in
            if is_some (GoMap.get t.byid id) then again else (ok id, t)
        | fails e ↦ (fails e, t)
        | panics ↦ (panics, t)
        | diverges ↦ (diverges, t)
      ]

  unfoldable pub choose_id : ℕ → ℕ → Str → Exec (ContainerStore p) Str
  unfolding fresh_id
  choose_id draws fuel id s = if str_eq id [] then fresh_id draws fuel s else (ok id, s)

  -- The record is entered into every table.
  unfoldable pub enter : Container → ContainerStore p → ContainerStore p
  unfolding name_all
  enter c s = record s {
    heap = alloc s.heap c;
    containers = s.containers ++ s.heap.next ∷ [];
    byid = GoMap.put s.byid c.id s.heap.next;
    idindex = (p.index.add s.idindex c.id).1;
    bylayer = GoMap.put s.bylayer c.layer_id s.heap.next;
    byname = name_all s.byname c.names s.heap.next;
  }

  unfoldable pub save_new : Container → Exec (ContainerStore p) Container
  unfolding enter
  save_new c s = (do save; pure c) (enter c s)

  unfoldable pub create_at :
      Str → List Str → Str → Str → Str → ContainerOptions → Exec (ContainerStore p) Container
  unfolding option_flags any_in_use save_new new_container
  create_at id names image layer metadata options s =
      if is_some (GoMap.get s.byid id)
      then (fails duplicate_id, s)
      else elim (option_flags options) [
        | none ↦ (panics, s)
        | some flags ↦
            if any_in_use s.byname (dedupe_names names)
            then (fails duplicate_name, s)
            else save_new
                (new_container id (dedupe_names names) image layer metadata options flags
                  (p.env.now s.world))
                s
      ]

  unfoldable pub create :
      ℕ
      → ℕ
      → Str
      → List Str
      → Str
      → Str
      → Str
      → ContainerOptions
      → Exec (ContainerStore p) Container
  unfolding choose_id create_at
  create draws fuel id names image layer metadata options = do
    chosen ← choose_id draws fuel id
    create_at chosen names image layer metadata options
