-- ===== src/Layers.antt =====
-- layers.go: the records of layers and the store that keeps them. The tables by id, name and prefix
-- are those of a directory; beside them the store finds layers by mount point and by digest.
pub mod Mounts
pub mod Mount
pub mod Changes
pub mod Digests
pub mod Delete
pub mod Load
pub mod Diff
pub mod Request
pub mod Put
pub mod Filing
pub mod Filed
pub mod Coherent
pub mod Finding
pub mod Removal
pub mod Open
pub mod Additional
use containers_storage.Prelude.{
  ℕ, Bool, true, false, ◌++◌, Option, none, some, List, [], ◌∷◌, refl, map, Str, str_eq, codes,
  is_some, if◌then◌else◌,
}
use containers_storage.Prelude.GoMap
use containers_storage.Prelude.GoMap.{GoMap}
use containers_storage.Prelude.Heap.{Heap}
use containers_storage.Prelude.Int.{ℤ, negsuc}
use containers_storage.Prelude.Exec.{
  Error, image_unknown, layer_unknown, no_such_file, store_is_read_only, Result, ok, fails, panics,
  diverges, Exec,
}
use containers_storage.Env.{Env}
use containers_storage.IdTools.{IdMap, IdMappings}
use containers_storage.Names.{big_data_base_name}
use containers_storage.TruncIndex.Interface.{IdIndex}
use containers_storage.Containers.{Value}
use containers_storage.Directory.{Kind, Tables, find, write_item}

pub record Layer : Type 0 where
  pub id : Str
  pub names : List Str
  pub parent : Str
  pub metadata : Str
  pub mount_label : Str
  pub mount_point : Str
  pub mount_count : ℤ
  pub created : ℕ
  pub compressed_digest : Str
  pub compressed_size : ℤ
  pub uncompressed_digest : Str
  pub uncompressed_size : ℤ
  pub compression_type : ℕ
  pub uids : List ℕ
  pub gids : List ℕ
  pub flags : GoMap Value
  -- a slice of mappings that is nil is `none`
  pub uid_map : Option (List IdMap)
  pub gid_map : Option (List IdMap)
  pub read_only : Bool
  pub big_data_names : List Str

-- layerMountPoint
pub record LayerMountPoint : Type 0 where
  pub id : Str
  pub mount_point : Str
  pub mount_count : ℤ

abbrev pub layer_kind : Kind
layer_kind = record {
  Item = Layer;
  id_of = λ l. l.id;
  names_of = λ l. l.names;
  with_names = λ l ns. record l { names = ns };
  id-with_names = λ l ns. refl;
  names-with_names = λ l ns. refl;
  with_names_self = λ l. refl;
  with_names_twice = λ l ms ns. refl;
}

-- drivers.MountOpts
pub record MountOpts : Type 0 where
  pub mount_label : Str
  pub uid_maps : Option (List IdMap)
  pub gid_maps : Option (List IdMap)
  pub options : List Str

-- What os.Stat tells of the time a file was last modified.
pub data ModTime : Type 0 where
  modified_at : ℕ → ModTime
  no_file : ModTime
  no_stat : ModTime

-- The lock on the mount information.
pub record MountsLock (W : Type 0) : Type 0 where
  pub lock : W → W
  pub rlock : W → W
  pub unlock : W → W
  pub touch : W → W
  pub locked : W → Bool
  pub modified : Exec W Bool

-- drivers.CreateOpts
pub record CreateOpts : Type 0 where
  pub mount_label : Str
  pub storage_opt : GoMap Str
  pub id_mappings : IdMappings

-- What a layer's tar stream came to: the size that the driver reports, the data of tar-split, the
-- digests and lengths of the stream as it came and decompressed, its compression, and the owners of
-- the entries that are not whiteouts, in the order in which `range` yields them.
pub record Applied : Type 0 where
  pub size : ℤ
  pub tar_split : Str
  pub compressed_digest : Str
  pub compressed_size : ℤ
  pub uncompressed_digest : Str
  pub uncompressed_size : ℤ
  pub compression_type : ℕ
  pub uids : List ℕ
  pub gids : List ℕ

-- What layerStore calls of a graph driver, drivers.Driver. `apply_stream` is ApplyDiff reading its
-- stream through archive.DecompressStream, tar-split, pgzip, tarlog and the digesters.
pub record Driver (W : Type 0) : Type 0 where
  pub create : Str → Str → CreateOpts → Exec W (Unit {0})
  pub create_read_write : Str → Str → CreateOpts → Exec W (Unit {0})
  pub create_from_template :
      Str → Str → IdMappings → Str → IdMappings → CreateOpts → Bool → Exec W (Unit {0})
  pub update_layer_id_map : Str → IdMappings → IdMappings → Str → Exec W (Unit {0})
  pub apply_stream : Str → Str → Str → IdMappings → Str → Exec W Applied
  pub remove : Str → Exec W (Unit {0})
  pub get : Str → MountOpts → Exec W Str
  pub put : Str → Exec W (Unit {0})
  pub supports_shifting : Bool

-- opencontainers/selinux/go-selinux/label
pub record Labels (W : Type 0) : Type 0 where
  pub clear : W → W
  pub reserve : Str → W → W
  pub release : Str → W → W

-- What the layer store is built on. `env` has the lock on the layers; an environment's `remove_file`
-- and `remove_all` return errors that the store drops. `is_mounted` is mount.Mounted, `clean` is
-- filepath.Clean,
-- `canonical` tells whether a digest is of the canonical algorithm.
pub record LayerPlatform : Type 1 where
  pub env : Env
  pub index : IdIndex
  pub mounts : MountsLock env.World
  pub driver : Driver env.World
  pub labels : Labels env.World
  pub marshal : List Layer → Option Str
  pub unmarshal : Str → Bool × List Layer
  pub marshal_mounts : List LayerMountPoint → Option Str
  pub unmarshal_mounts : Str → Bool × List LayerMountPoint
  pub remove_file : Str → env.World → env.World
  pub mod_time : env.World → Str → ModTime
  pub is_mounted : Str → Exec env.World Bool
  pub clean : Str → Str
  pub canonical : Str → Bool

pub record LayerStore (p : LayerPlatform) : Type 0 where
  pub run_dir : Str
  pub layer_dir : Str
  -- mountsLockfile is not nil
  pub has_mounts_lock : Bool
  pub tables : Tables layer_kind p.index
  pub bymount : GoMap ℕ
  pub bycompressedsum : GoMap (List Str)
  pub byuncompressedsum : GoMap (List Str)
  -- layerspathModified; the zero time is 0
  pub layers_path_modified : ℕ
  pub world : p.env.World

-- os.IsNotExist
unfoldable pub is_not_exist : Error → Bool
is_not_exist no_such_file = true
is_not_exist _ = false

-- A function of the environment as a method of the store.
abbrev pub on_world : {p : LayerPlatform} {A : Type 0} → Exec p.env.World A → Exec (LayerStore p) A
on_world m s = let (r, w) = m s.world in (r, record s { world = w })

-- A function of the environment that returns nothing.
abbrev pub in_world :
    {p : LayerPlatform} → (p.env.World → p.env.World) → LayerStore p → LayerStore p
in_world f s = record s { world = f s.world }

-- A deferred call of that kind.
abbrev pub afterwards :
    {p : LayerPlatform} {A : Type 0}
    → (p.env.World → p.env.World)
    → Exec (LayerStore p) A
    → Exec (LayerStore p) A
afterwards f m s = let (r, t) = m s in (r, in_world f t)

abbrev pub layer_at : {p : LayerPlatform} → LayerStore p → ℕ → Layer
layer_at s r = s.tables.heap.cell r

abbrev pub modify : {p : LayerPlatform} → LayerStore p → ℕ → Layer → LayerStore p
modify s r l = record s { tables = write_item s.tables r l }

abbrev pub layers_path : {p : LayerPlatform} → LayerStore p → Str
layers_path {p} s = p.env.join s.layer_dir (codes "layers.json")

abbrev pub mounts_path : {p : LayerPlatform} → LayerStore p → Str
mounts_path {p} s = p.env.join s.run_dir (codes "mountpoints.json")

abbrev pub data_dir : {p : LayerPlatform} → LayerStore p → Str → Str
data_dir {p} s id = p.env.join s.layer_dir id

abbrev pub data_path : {p : LayerPlatform} → LayerStore p → Str → Str → Str
data_path {p} s id key = p.env.join (data_dir s id) (big_data_base_name p.env key)

abbrev pub ts_path : {p : LayerPlatform} → LayerStore p → Str → Str
ts_path {p} s id = p.env.join s.layer_dir (id ++ codes ".tar-split.gz")

unfoldable pub lookup : {p : LayerPlatform} → LayerStore p → Str → Option ℕ
unfolding find
lookup s id = find s.tables id

-- An action on the layer that is looked up.
abbrev pub with_layer :
    {p : LayerPlatform} {A : Type 0}
    → Option ℕ
    → (ℕ → Exec (LayerStore p) A)
    → Exec (LayerStore p) A
with_layer none f s = (fails layer_unknown, s)
with_layer (some r) f s = f r s

-- The methods that change the store refuse to do so where the lock is one for reading.
abbrev pub when_writable :
    {p : LayerPlatform} {A : Type 0} → Exec (LayerStore p) A → Exec (LayerStore p) A
when_writable {p} m s = if p.env.read_write s.world then m s else (fails store_is_read_only, s)

unfoldable pub lookup_id : {p : LayerPlatform} → Str → Exec (LayerStore p) Str
unfolding lookup
lookup_id name s = with_layer (lookup s name) (λ r t. (ok (layer_at t r).id, t)) s

unfoldable pub exists : {p : LayerPlatform} → LayerStore p → Str → Bool
unfolding lookup
exists s id = is_some (lookup s id)

unfoldable pub get_layer : {p : LayerPlatform} → Str → Exec (LayerStore p) Layer
unfolding lookup
get_layer id s = with_layer (lookup s id) (λ r t. (ok (layer_at t r), t)) s

unfoldable pub layers_of : {p : LayerPlatform} → LayerStore p → List Layer
layers_of s = map (layer_at s) s.tables.items

unfoldable pub metadata_of : {p : LayerPlatform} → Str → Exec (LayerStore p) Str
unfolding lookup
metadata_of id s = with_layer (lookup s id) (λ r t. (ok (layer_at t r).metadata, t)) s

-- BigDataNames, which reports an unknown image.
unfoldable pub big_data_names_of : {p : LayerPlatform} → Str → Exec (LayerStore p) (List Str)
unfolding lookup
big_data_names_of id s = elim (lookup s id) [
  | none ↦ (fails image_unknown, s)
  | some r ↦ (ok (layer_at s r).big_data_names, s)
]

-- The size is only told where the digest is known.
unfoldable pub size_of : {p : LayerPlatform} → Str → Exec (LayerStore p) ℤ
unfolding lookup
size_of name s =
    with_layer (lookup s name)
      (λ r t. (
        ok (
            if str_eq (layer_at t r).uncompressed_digest []
            then negsuc 0
            else (layer_at t r).uncompressed_size),
        t,
      ))
      s
