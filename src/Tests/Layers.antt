-- ===== src/Tests/Layers.antt =====
-- The layer store at concrete inputs.
use containers_storage.Layers.Delete.{delete}
use containers_storage.Layers.Load.{load, is_incomplete}
use containers_storage.Prelude.{
  if◌then◌else◌, inl, String, ℕ, ◌+◌, ◌≡◌, refl, Bool, true, false, Option, none, some, List, [],
  ◌∷◌, map, Str, codes, str_eq, elem, holds, distinct, distinct_refs,
}
use containers_storage.Prelude.GoMap
use containers_storage.Prelude.GoMap.{GoMap}
use containers_storage.Prelude.Int.{pos}
use containers_storage.Prelude.Exec.{Error, Result, WhereTrue, ok, fails, panics, diverges}
use containers_storage.TruncIndex.Patricia.{slice_trie}
use containers_storage.TruncIndex.Interface.{trunc_index}
use containers_storage.Containers.{bool}
use containers_storage.Layers.{
  Applied, Driver, Layer, LayerPlatform, LayerStore, MountOpts, MountsLock, layer_kind, no_file,
  layer_at, layer_kind, lookup,
}
use containers_storage.Layers.Delete.{delete_internal}
use containers_storage.Layers.Load.{load, clean_up}
use containers_storage.Layers.Diff.{LayerOptions}
use containers_storage.Layers.Request.{Request}
use containers_storage.Layers.Put.{put}
use containers_storage.Layers.Digests.{
  ids_under, layers_by_compressed_digest, layers_by_uncompressed_digest,
}
use containers_storage.Layers.Changes.{set_names}
use containers_storage.Directory.{Tables, rebuild_tables, load_items, alloc_items}
use containers_storage.Directory.Alloc.{names_distinct}
use containers_storage.Directory.Rebuild.{rebuild-Agrees}
use containers_storage.Layers.Coherent.{Coherent}
use containers_storage.Layers.Coherent.Calls.{
  loads, reloads, LoadsIntact, RunIntact, step, Call, puts, deletes, mounts, renames, run,
  run-Coherent,
}
use containers_storage.Layers.Coherent.Loading.{Decodes, Intact}
use containers_storage.Layers.Removal.{Removed, delete_internal-Removed}
use containers_storage.Layers.Open.{
  closed_store, open_store, prepare, OpensIntact, new_layer_store, new_layer_store-Coherent,
}
use containers_storage.Layers.Additional.{put_additional_layer}
use containers_storage.Layers.Finding.{layers_by_digest_sound, HaveDigest}
use containers_storage.Env.{contents}
use containers_storage.Layers.Load.{modified}
use containers_storage.Layers.Coherent.Reloading.{ReloadsIntact}
use containers_storage.Tests.Platforms.{demo_env}

abbrev mounts_lock : MountsLock ℕ
mounts_lock = record {
  lock = λ w. w + 1;
  rlock = λ w. w + 1;
  unlock = λ w. w + 1;
  touch = λ w. w + 1;
  locked = λ w. true;
  modified = λ w. (ok false, w);
}

abbrev stream : Applied
stream = record {
  size = pos 3;
  tar_split = codes "split";
  compressed_digest = codes "c1";
  compressed_size = pos 2;
  uncompressed_digest = codes "u1";
  uncompressed_size = pos 3;
  compression_type = 1;
  uids = 5 ∷ 0 ∷ [];
  gids = [];
}

-- A driver that never fails.
abbrev driver : Driver ℕ
driver = record {
  create = λ id parent opts w. (ok tt, w);
  create_read_write = λ id parent opts w. (ok tt, w);
  create_from_template = λ id template ms parent ns opts writeable w. (ok tt, w);
  update_layer_id_map = λ id old new label w. (ok tt, w);
  apply_stream = λ diff id parent ms label w. (ok stream, w);
  remove = λ id w. (ok tt, w);
  get = λ id opts w. (ok (codes "/merged"), w);
  put = λ id w. (ok tt, w);
  supports_shifting = false;
}

abbrev platform_on : Bool → LayerPlatform
platform_on writes = record {
  env = record demo_env { read_write = λ w. writes };
  index = trunc_index slice_trie;
  mounts = mounts_lock;
  driver = driver;
  labels = record { clear = λ w. w; reserve = λ l w. w; release = λ l w. w };
  marshal = λ ls. some [];
  unmarshal = λ content. (true, []);
  marshal_mounts = λ ms. some [];
  unmarshal_mounts = λ content. (true, []);
  remove_file = λ path w. w;
  mod_time = λ w path. no_file;
  is_mounted = λ path w. (ok true, w);
  clean = λ path. path;
  canonical = λ d. true;
}

abbrev some_layer : Layer
some_layer = record {
  id = codes "x";
  names = [];
  parent = [];
  metadata = [];
  mount_label = [];
  mount_point = [];
  mount_count = pos 0;
  created = 0;
  compressed_digest = [];
  compressed_size = pos 0;
  uncompressed_digest = [];
  uncompressed_size = pos 0;
  compression_type = 0;
  uids = [];
  gids = [];
  flags = GoMap.empty;
  uid_map = none;
  gid_map = none;
  read_only = false;
  big_data_names = [];
}

abbrev no_tables : (p : LayerPlatform) → Tables layer_kind p.index
no_tables p = (rebuild_tables (record { next = 0; cell = λ q. some_layer }) []).0

abbrev no_layers : (writes : Bool) → LayerStore (platform_on writes)
no_layers writes = record {
  run_dir = codes "/r";
  layer_dir = codes "/l";
  has_mounts_lock = true;
  tables = no_tables (platform_on writes);
  bymount = GoMap.empty;
  bycompressedsum = GoMap.empty;
  byuncompressedsum = GoMap.empty;
  layers_path_modified = 0;
  world = 0;
}

abbrev no_layer_options : LayerOptions
no_layer_options = record {
  uid_map = none;
  gid_map = none;
  template_layer = [];
  original_digest = [];
  uncompressed_digest = [];
}

abbrev request : String → Option Str → Request
request name diff = record {
  names = codes name ∷ [];
  parent = none;
  mount_label = [];
  storage_opt = GoMap.empty;
  options = no_layer_options;
  writeable = true;
  flags = GoMap.empty;
  diff = diff;
}

abbrev plain_mount : MountOpts
plain_mount = record { mount_label = []; uid_maps = none; gid_maps = none; options = [] }

-- Two records on disk with one digest, that both claim the name "base"; another text than "two" breaks
-- off after one.
abbrev on_disk : List Layer
on_disk =
    record some_layer { id = codes "d1"; names = codes "base" ∷ []; compressed_digest = codes "c1" }
    ∷ record some_layer {
      id = codes "d2";
      names = codes "base" ∷ codes "top" ∷ [];
      compressed_digest = codes "c1";
    }
    ∷ []

abbrev disk : LayerPlatform
disk = record (platform_on true) {
  env = record demo_env { read_file = λ w path. contents (codes "two") };
  unmarshal = λ content.
      if str_eq content (codes "two")
      then (true, on_disk)
      else if str_eq content []
      then (true, [])
      else (false, some_layer ∷ []);
}

abbrev no_layers_on : (p : LayerPlatform) → p.env.World → LayerStore p
no_layers_on p w = record {
  run_dir = codes "/r";
  layer_dir = codes "/l";
  has_mounts_lock = true;
  tables = no_tables p;
  bymount = GoMap.empty;
  bycompressedsum = GoMap.empty;
  byuncompressedsum = GoMap.empty;
  layers_path_modified = 0;
  world = w;
}

no_layers_on-Coherent : (p : LayerPlatform) (w : p.env.World) → Coherent (no_layers_on p w)
unfolding rebuild_tables load_items alloc_items distinct names_distinct GoMap.get holds elem
    ids_under distinct_refs
no_layers_on-Coherent p w = record {
  tables =
      rebuild-Agrees layer_kind p.index (record { next = 0; cell = λ q. some_layer }) [] refl refl;
  compressed = record { filed = λ d r h. cc; known = λ d id h. cc; once = λ d. refl };
  uncompressed = record { filed = λ d r h. cc; known = λ d id h. cc; once = λ d. refl };
}

abbrev disk_calls : List Call
disk_calls =
    puts 1 1 1 (codes "a1") (request "base" (some (codes "tar")))
    ∷ loads
    ∷ puts 1 1 1 (codes "b2") (request "new" none)
    ∷ mounts (codes "top") plain_mount
    ∷ renames (codes "d1") (codes "top" ∷ [])
    ∷ reloads
    ∷ deletes 3 (codes "d2")
    ∷ []

disk-Decodes : Decodes (disk.unmarshal (codes "two"))
unfolding distinct names_distinct elem str_eq
disk-Decodes = (refl, refl, λ e. cc)

asked_always : (r : Result Bool) (P : Type 0) → P → WhereTrue r P
unfolding WhereTrue
asked_always (ok true) P x = x
asked_always (ok false) P x = tt
asked_always (fails e) P x = tt
asked_always panics P x = tt
asked_always diverges P x = tt

disk-ReloadsIntact : (s : LayerStore disk) → ReloadsIntact s
unfolding ReloadsIntact Intact
disk-ReloadsIntact s =
    asked_always (modified s).0 (Decodes (disk.unmarshal (codes "two"))) disk-Decodes

run-Coherent_example : Coherent (run (no_layers_on disk 0) disk_calls)
unfolding RunIntact LoadsIntact Intact
run-Coherent_example =
    run-Coherent (no_layers_on disk 0) disk_calls
      (tt, (disk-Decodes, (tt, (tt, (tt, (disk-ReloadsIntact _, (tt, tt)))))))
      (no_layers_on-Coherent disk 0)

-- A layer with contents, and one without.
abbrev two_layers : LayerStore (platform_on true)
two_layers = run (no_layers true) (
    puts 1 1 1 (codes "a1") (request "base" (some (codes "tar")))
    ∷ puts 1 1 1 (codes "b2") (request "top" none)
    ∷ [])

two_layers-Coherent : Coherent two_layers
unfolding RunIntact LoadsIntact
two_layers-Coherent =
    run-Coherent (no_layers true)
      (puts 1 1 1 (codes "a1") (request "base" (some (codes "tar")))
        ∷ puts 1 1 1 (codes "b2") (request "top" none)
        ∷ [])
      (tt, (tt, tt)) (no_layers_on-Coherent (platform_on true) 0)

layers_by_digest_sound_example :
    ((rs : List ℕ) × (layers_by_compressed_digest (codes "c1") two_layers
        ≡ (ok (map (layer_at two_layers) rs), two_layers))
      × HaveDigest two_layers (λ l. l.compressed_digest) (codes "c1") rs)
    × ((rs : List ℕ) × (layers_by_uncompressed_digest (codes "c1") two_layers
          ≡ (ok (map (layer_at two_layers) rs), two_layers))
        × HaveDigest two_layers (λ l. l.uncompressed_digest) (codes "c1") rs)
layers_by_digest_sound_example = layers_by_digest_sound two_layers (codes "c1") two_layers-Coherent

found_by_name : lookup two_layers (codes "base") ≡ some 0
unfolding lookup GoMap.get run step put str_eq rebuild_tables GoMap.put
found_by_name = refl

found_by_digest : ids_under two_layers.bycompressedsum (codes "c1") ≡ codes "a1" ∷ []
unfolding ids_under GoMap.get run step put str_eq rebuild_tables GoMap.put
found_by_digest = refl

owners_sorted : (layer_at two_layers 0).uids ≡ 0 ∷ 5 ∷ []
unfolding run step put str_eq GoMap.get rebuild_tables GoMap.put
owners_sorted = refl

name_moved :
    lookup (run two_layers (renames (codes "a1") (codes "top" ∷ []) ∷ [])) (codes "top") ≡ some 0
unfolding lookup GoMap.get run step set_names put str_eq rebuild_tables GoMap.put
name_moved = refl

deleted : GoMap.get (run two_layers (deletes 3 (codes "top") ∷ [])).tables.byid (codes "b2") ≡ none
unfolding GoMap.get run step delete put str_eq rebuild_tables GoMap.put
deleted = refl

-- In the file's order, three layers of which the first two are incomplete.
abbrev incomplete : String → Layer
incomplete id = record some_layer { id = codes id; flags = (codes "incomplete", bool true) ∷ [] }

abbrev half_deleted : LayerStore (platform_on true)
half_deleted = record (no_layers true) {
  tables =
      (rebuild_tables (record { next = 0; cell = λ q. some_layer })
        (incomplete "a" ∷ incomplete "b" ∷ some_layer ∷ [])).0;
}

-- Load's loop over them deletes the first and passes over the second, whose place in the array is
-- taken by the third.
second_skipped :
    (clean_up 3 0 half_deleted.tables.items false half_deleted).1.tables.items ≡ 1 ∷ 2 ∷ []
unfolding clean_up rebuild_tables is_incomplete GoMap.get str_eq GoMap.put
second_skipped = refl

delete_internal-Removed_example :
    ((w : ℕ)
      → driver.remove (codes "a1") two_layers.world ≡ (ok tt, w)
      → ((delete_internal (codes "base") two_layers).0 ≡ ok tt)
        × Removed 0 two_layers (delete_internal (codes "base") two_layers).1)
    × ((e : Error) (w : ℕ)
        → driver.remove (codes "a1") two_layers.world ≡ (fails e, w)
        → delete_internal (codes "base") two_layers ≡ (fails e, record two_layers { world = w }))
unfolding lookup GoMap.get run step put str_eq rebuild_tables GoMap.put
delete_internal-Removed_example =
    delete_internal-Removed (codes "base") 0 two_layers two_layers-Coherent refl refl

-- The store that a directory with a layers.json of two records gives.
abbrev opened_store : LayerStore disk
opened_store = (load (closed_store (codes "/r") (codes "/l") true 0)).1

new_layer_store-Coherent_example : Coherent opened_store
unfolding new_layer_store open_store closed_store load str_eq prepare OpensIntact Intact GoMap.get
    GoMap.put is_incomplete
new_layer_store-Coherent_example =
    new_layer_store-Coherent {p = disk} (λ path w. (ok tt, w)) (codes "/r") (codes "/l") 0
      opened_store (inl (disk-Decodes, refl))

-- A layer of an additional store, which has both digests.
abbrev with_additional : LayerStore (platform_on true)
with_additional =
    (put_additional_layer
      (λ w. (
        ok (record some_layer { compressed_digest = codes "c9"; uncompressed_digest = codes "u9" }),
        w,
      ))
      (λ id parent w. (ok tt, w)) (codes "z9") none (codes "extra" ∷ []) (no_layers true)).1

-- It is not found by its uncompressed digest.
filed_wrong : ids_under with_additional.byuncompressedsum (codes "u9") ≡ []
unfolding ids_under GoMap.get put_additional_layer rebuild_tables str_eq GoMap.put
filed_wrong = refl
