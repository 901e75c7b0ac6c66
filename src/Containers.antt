-- ===== src/Containers.antt =====
-- containers.go: the records of containers and the store that keeps them. A `*Container` is a number
-- that the heap maps to the record, so the four tables of the store share what they point to. The
-- methods stand in the modules below.
pub mod Invariant
pub mod Frame
pub mod Lookup
pub mod BigData
pub mod Load
pub mod Entries
pub mod Removal
pub mod Create
pub mod Delete
pub mod Changes
use containers_storage.Prelude.{
  ℕ, Bool, Option, none, some, List, [], ◌∷◌, map, Str, codes, not, if◌then◌else◌,
}
use containers_storage.Prelude.GoMap
use containers_storage.Prelude.GoMap.{GoMap}
use containers_storage.Prelude.Heap.{Heap, write}
use containers_storage.Prelude.Exec.{
  Error, os_error, not_locked, Result, ok, fails, panics, diverges, Exec, pure, fail, or_fail,
  ◌>>=◌, ◌>>◌, continue,
}
use containers_storage.Env.{Env}
use containers_storage.IdTools.{IdMap}
use containers_storage.Names.{without_value, big_data_base_name}
use containers_storage.TruncIndex.Interface.{IdIndex}

-- The dynamic types of an `interface{}` that the methods tell apart. An element of `[]interface{}` is
-- here what its assertion to a string gives.
pub data Value : Type 0 where
  bool : Bool → Value
  string : Str → Value
  strings : List Str → Value
  anys : List (Option Str) → Value
  other : Value

pub record Container : Type 0 where
  pub id : Str
  pub names : List Str
  pub image_id : Str
  pub layer_id : Str
  pub metadata : Str
  pub big_data_names : List Str
  pub big_data_sizes : GoMap ℕ
  pub big_data_digests : GoMap Str
  pub created : ℕ
  pub uid_map : List IdMap
  pub gid_map : List IdMap
  pub flags : GoMap Value

-- What the container store is built on: its environment, the index of its ids, and the JSON form of a
-- slice of containers. `unmarshal` returns whether it succeeded and what it filled in.
pub record Platform : Type 1 where
  pub env : Env
  pub index : IdIndex
  pub marshal : List Container → Option Str
  pub unmarshal : Str → Bool × List Container

pub record ContainerStore (p : Platform) : Type 0 where
  pub dir : Str
  pub heap : Heap Container
  pub containers : List ℕ
  pub idindex : p.index.Index
  pub byid : GoMap ℕ
  pub bylayer : GoMap ℕ
  pub byname : GoMap ℕ
  pub world : p.env.World

-- A function of the environment as a method of the store.
abbrev pub on_world : {p : Platform} {A : Type 0} → Exec p.env.World A → Exec (ContainerStore p) A
on_world m s = let (r, w) = m s.world in (r, record s { world = w })

-- `defer r.Touch()` around an action.
abbrev pub touching :
    {p : Platform} {A : Type 0} → Exec (ContainerStore p) A → Exec (ContainerStore p) A
touching {p} m s = let (r, t) = m s in (r, record t { world = p.env.touch t.world })

abbrev pub containers_path : {p : Platform} → ContainerStore p → Str
containers_path {p} s = p.env.join s.dir (codes "containers.json")

abbrev pub data_dir : {p : Platform} → ContainerStore p → Str → Str
data_dir {p} s id = p.env.join s.dir id

abbrev pub data_path : {p : Platform} → ContainerStore p → Str → Str → Str
data_path {p} s id key = p.env.join (data_dir s id) (big_data_base_name p.env key)

-- `modify s p c`: *p = c
abbrev pub modify : {p : Platform} → ContainerStore p → ℕ → Container → ContainerStore p
modify s r c = record s { heap = write s.heap r c }

-- json.Marshal(&r.containers)
abbrev pub encode : {p : Platform} → ContainerStore p → Option Str
encode {p} s = p.marshal (map s.heap.cell s.containers)

unfoldable pub save : {p : Platform} → Exec (ContainerStore p) (Unit {0})
save {p} s =
    if p.env.locked s.world
    then (do
      on_world (p.env.mkdir_all (p.env.dir_of (containers_path s)))
      written ← or_fail (encode s) os_error
      touching (on_world (p.env.write_file (containers_path s) written)))
        s
    else (fails not_locked, s)

abbrev pub or_else : Option ℕ → Option ℕ → Option ℕ
or_else (some r) next = some r
or_else none next = next

-- r.byid of the id that the index finds for a prefix
abbrev pub by_prefix : GoMap ℕ → Result Str → Option ℕ
by_prefix byid (ok longid) = GoMap.get byid longid
by_prefix byid _ = none

unfoldable pub lookup : {p : Platform} → ContainerStore p → Str → Option ℕ
lookup {p} s id = or_else (GoMap.get s.byid id) (
    or_else (GoMap.get s.byname id)
      (or_else (GoMap.get s.bylayer id) (by_prefix s.byid (p.index.get s.idindex id))))

unfoldable pub remove_name : {p : Platform} → ContainerStore p → ℕ → Str → ContainerStore p
remove_name s r name =
    let c = s.heap.cell r in modify s r (record c { names = without_value c.names name })
