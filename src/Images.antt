-- ===== src/Images.antt =====
-- images.go: the records of images and the store that keeps them. As for containers, an `*Image` is a
-- number that the heap maps to the record; a digest leads to a slice of such pointers.
pub mod Digests
pub mod Create
pub mod Delete
pub mod Changes
pub mod BigData
pub mod Load
pub mod Filing
pub mod Filed
pub mod Recompute
use containers_storage.Prelude.{
  ℕ, Bool, Option, none, some, List, ◌∷◌, [], map, Str, codes, is_some, if◌then◌else◌,
}
use containers_storage.Prelude.GoMap
use containers_storage.Prelude.GoMap.{GoMap}
use containers_storage.Prelude.Heap.{Heap, write}
use containers_storage.Prelude.Exec.{
  os_error, not_locked, store_is_read_only, image_unknown, Result, ok, fails, panics, diverges,
  Exec, or_fail, ◌>>=◌, ◌>>◌, continue,
}
use containers_storage.Env.{Env}
use containers_storage.Names.{without_value, big_data_base_name}
use containers_storage.TruncIndex.Interface.{IdIndex}
use containers_storage.Containers.{Value, or_else, by_prefix}

pub record Image : Type 0 where
  pub id : Str
  pub digest : Str
  pub digests : List Str
  pub names : List Str
  pub names_history : List Str
  pub top_layer : Str
  pub mapped_top_layers : List Str
  pub metadata : Str
  pub big_data_names : List Str
  pub big_data_sizes : GoMap ℕ
  pub big_data_digests : GoMap Str
  -- the zero time is 0
  pub created : ℕ
  pub read_only : Bool
  pub flags : GoMap Value

-- What the image store is built on: its environment, the index of its ids, the JSON form of a slice
-- of images, and strings.EqualFold.
pub record ImagePlatform : Type 1 where
  pub env : Env
  pub index : IdIndex
  pub marshal : List Image → Option Str
  pub unmarshal : Str → Bool × List Image
  pub equal_fold : Str → Str → Bool

pub record ImageStore (p : ImagePlatform) : Type 0 where
  pub dir : Str
  pub heap : Heap Image
  pub images : List ℕ
  pub idindex : p.index.Index
  pub byid : GoMap ℕ
  pub byname : GoMap ℕ
  pub bydigest : GoMap (List ℕ)
  pub world : p.env.World

-- A function of the environment as a method of the store.
abbrev pub on_world : {p : ImagePlatform} {A : Type 0} → Exec p.env.World A → Exec (ImageStore p) A
on_world m s = let (r, w) = m s.world in (r, record s { world = w })

abbrev pub touching :
    {p : ImagePlatform} {A : Type 0} → Exec (ImageStore p) A → Exec (ImageStore p) A
touching {p} m s = let (r, t) = m s in (r, record t { world = p.env.touch t.world })

abbrev pub images_path : {p : ImagePlatform} → ImageStore p → Str
images_path {p} s = p.env.join s.dir (codes "images.json")

abbrev pub data_dir : {p : ImagePlatform} → ImageStore p → Str → Str
data_dir {p} s id = p.env.join s.dir id

abbrev pub data_path : {p : ImagePlatform} → ImageStore p → Str → Str → Str
data_path {p} s id key = p.env.join (data_dir s id) (big_data_base_name p.env key)

abbrev pub modify : {p : ImagePlatform} → ImageStore p → ℕ → Image → ImageStore p
modify s r i = record s { heap = write s.heap r i }

-- The methods that change the store refuse to do so where the lock is one for reading.
abbrev pub when_writable :
    {p : ImagePlatform} {A : Type 0} → Exec (ImageStore p) A → Exec (ImageStore p) A
when_writable {p} m s = if p.env.read_write s.world then m s else (fails store_is_read_only, s)

-- json.Marshal(&r.images)
abbrev pub encode : {p : ImagePlatform} → ImageStore p → Option Str
encode {p} s = p.marshal (map s.heap.cell s.images)

abbrev pub save_locked : {p : ImagePlatform} → Exec (ImageStore p) (Unit {0})
save_locked {p} s =
    if p.env.locked s.world
    then (do
      on_world (p.env.mkdir_all (p.env.dir_of (images_path s)))
      written ← or_fail (encode s) os_error
      touching (on_world (p.env.write_file (images_path s) written)))
        s
    else (fails not_locked, s)

unfoldable pub save : {p : ImagePlatform} → Exec (ImageStore p) (Unit {0})
save s = when_writable save_locked s

unfoldable pub lookup : {p : ImagePlatform} → ImageStore p → Str → Option ℕ
lookup {p} s id =
    or_else (GoMap.get s.byid id)
      (or_else (GoMap.get s.byname id) (by_prefix s.byid (p.index.get s.idindex id)))

unfoldable pub remove_name : {p : ImagePlatform} → ImageStore p → ℕ → Str → ImageStore p
remove_name s r name =
    let i = s.heap.cell r in modify s r (record i { names = without_value i.names name })

-- An action on the image that is looked up.
abbrev pub with_image :
    {p : ImagePlatform} {A : Type 0}
    → Option ℕ
    → (ℕ → Exec (ImageStore p) A)
    → Exec (ImageStore p) A
with_image none f s = (fails image_unknown, s)
with_image (some r) f s = f r s

unfoldable pub get_image : {p : ImagePlatform} → Str → Exec (ImageStore p) Image
unfolding lookup
get_image id s = with_image (lookup s id) (λ r t. (ok (t.heap.cell r), t)) s

unfoldable pub lookup_id : {p : ImagePlatform} → Str → Exec (ImageStore p) Str
unfolding lookup
lookup_id name s = with_image (lookup s name) (λ r t. (ok (t.heap.cell r).id, t)) s

unfoldable pub exists : {p : ImagePlatform} → ImageStore p → Str → Bool
unfolding lookup
exists s id = is_some (lookup s id)

unfoldable pub images_of : {p : ImagePlatform} → ImageStore p → List Image
images_of s = map s.heap.cell s.images

unfoldable pub metadata_of : {p : ImagePlatform} → Str → Exec (ImageStore p) Str
unfolding lookup
metadata_of id s = with_image (lookup s id) (λ r t. (ok (t.heap.cell r).metadata, t)) s

unfoldable pub by_digest : {p : ImagePlatform} → Str → Exec (ImageStore p) (List Image)
by_digest d s = elim (GoMap.get s.bydigest d) [
  | none ↦ (fails image_unknown, s)
  | some rs ↦ (ok (map s.heap.cell rs), s)
]
