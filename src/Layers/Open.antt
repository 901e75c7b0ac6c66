-- ===== src/Layers/Open.antt =====
-- newLayerStore and newROLayerStore of layers.go: a store that is opened holds what Load reads.
use containers_storage.Prelude.{
  ◌≡◌, refl, subst, ◌⊎◌, inl, inr, Bool, true, false, none, [], Str, codes, elem, distinct, holds,
  distinct_refs,
}
use containers_storage.Prelude.GoMap
use containers_storage.Prelude.Int.{pos}
use containers_storage.Prelude.Exec.{Result, ok, fails, panics, diverges, Exec, continue-ok, ◌>>◌}
use containers_storage.Directory.{rebuild_tables, load_items, alloc_items}
use containers_storage.Directory.Alloc.{names_distinct}
use containers_storage.Directory.Rebuild.{rebuild-Agrees}
use containers_storage.Layers.{Layer, LayerPlatform, LayerStore, layer_kind, layers_path}
use containers_storage.Layers.Digests.{ids_under}
use containers_storage.Layers.Load.{load}
use containers_storage.Layers.Coherent.{Coherent}
use containers_storage.Layers.Coherent.Loading.{Intact, load-Coherent}

ok_injective : {A : Type 0} {a b : A} → ok a ≡ ok b → a ≡ b
ok_injective h = cc

-- Layer{}
abbrev pub zero_layer : Layer
zero_layer = record {
  id = [];
  names = [];
  parent = [];
  metadata = [];
  mount_label = [];
  mount_point = [];
  mount_count = pos 0;
  created = 0;
  compressed_digest = [];
  compressed_size = pos 0;
  uncompressed_digest = [];
  uncompressed_size = pos 0;
  compression_type = 0;
  uids = [];
  gids = [];
  flags = GoMap.empty;
  uid_map = none;
  gid_map = none;
  read_only = false;
  big_data_names = [];
}

module _ (p : LayerPlatform) where
  -- newLayerStore and newROLayerStore before Load: `get_lockfile` is GetLockfile or GetROLockfile of a
  -- path.
  unfoldable pub prepare :
      (Str → Exec p.env.World (Unit {0})) → Str → Str → Exec p.env.World (Unit {0})
  prepare get_lockfile run_dir layer_dir = do
    p.env.mkdir_all run_dir
    p.env.mkdir_all layer_dir
    get_lockfile (p.env.join layer_dir (codes "layers.lock"))
    get_lockfile (p.env.join run_dir (codes "mountpoints.lock"))

  unfoldable pub prepare_ro :
      (Str → Exec p.env.World (Unit {0})) → Str → Exec p.env.World (Unit {0})
  prepare_ro get_lockfile layer_dir = get_lockfile (p.env.join layer_dir (codes "layers.lock"))

  -- The layers.json that a store of this directory reads in the world `w` is whole.
  unfoldable pub OpensIntact : Str → p.env.World → Type 0
  OpensIntact layer_dir w =
      Intact p.unmarshal (p.env.read_file w (p.env.join layer_dir (codes "layers.json")))

module _ {p : LayerPlatform} where
  -- The store before Load, without layers.
  unfoldable pub closed_store : Str → Str → Bool → p.env.World → LayerStore p
  unfolding rebuild_tables
  closed_store run_dir layer_dir has_mounts_lock w = record {
    run_dir = run_dir;
    layer_dir = layer_dir;
    has_mounts_lock = has_mounts_lock;
    tables = (rebuild_tables (record { next = 0; cell = λ q. zero_layer }) []).0;
    bymount = GoMap.empty;
    bycompressedsum = GoMap.empty;
    byuncompressedsum = GoMap.empty;
    layers_path_modified = 0;
    world = w;
  }

  abbrev opened : Result (Unit {0}) × LayerStore p → Result (LayerStore p) × p.env.World
  opened (ok u, s) = (ok s, s.world)
  opened (fails e, s) = (fails e, s.world)
  opened (panics, s) = (panics, s.world)
  opened (diverges, s) = (diverges, s.world)

  unfoldable pub open_store : Str → Str → Bool → Exec p.env.World (LayerStore p)
  unfolding closed_store load
  open_store run_dir layer_dir has_mounts_lock w =
      opened (load (closed_store run_dir layer_dir has_mounts_lock w))

  unfoldable pub new_layer_store :
      (Str → Exec p.env.World (Unit {0})) → Str → Str → Exec p.env.World (LayerStore p)
  unfolding prepare open_store
  new_layer_store get_lockfile run_dir layer_dir = do
    prepare p get_lockfile run_dir layer_dir
    open_store run_dir layer_dir true

  unfoldable pub new_ro_layer_store :
      (Str → Exec p.env.World (Unit {0})) → Str → Str → Exec p.env.World (LayerStore p)
  unfolding prepare_ro open_store
  new_ro_layer_store get_lockfile run_dir layer_dir = do
    prepare_ro p get_lockfile layer_dir
    open_store run_dir layer_dir false

module _ {p : LayerPlatform} where
  closed_store-Coherent :
      (run_dir layer_dir : Str) (lock : Bool) (w : p.env.World)
      → Coherent (closed_store {p = p} run_dir layer_dir lock w)
  unfolding closed_store distinct names_distinct ids_under GoMap.get elem holds distinct_refs
      rebuild_tables load_items alloc_items
  closed_store-Coherent run_dir layer_dir lock w = record {
    tables =
        rebuild-Agrees layer_kind p.index (record { next = 0; cell = λ q. zero_layer }) [] refl
          refl;
    compressed = record { filed = λ d r h. cc; known = λ d id h. cc; once = λ d. refl };
    uncompressed = record { filed = λ d r h. cc; known = λ d id h. cc; once = λ d. refl };
  }

  opened-Coherent :
      (r : Result (Unit {0})) (t s : LayerStore p)
      → Coherent t
      → (opened (r, t)).0 ≡ ok s
      → Coherent s
  opened-Coherent (ok u) t s v h = subst Coherent (ok_injective h) v
  opened-Coherent (fails e) t s v h = cc
  opened-Coherent panics t s v h = cc
  opened-Coherent diverges t s v h = cc

  open_store-Coherent :
      (run_dir layer_dir : Str) (lock : Bool) (w : p.env.World) (s : LayerStore p)
      → OpensIntact p layer_dir w
      → (open_store run_dir layer_dir lock w).0 ≡ ok s
      → Coherent s
  unfolding open_store OpensIntact closed_store layers_path
  open_store-Coherent run_dir layer_dir lock w s whole h =
      opened-Coherent _ _ s (load-Coherent _ whole (closed_store-Coherent run_dir layer_dir lock w))
        h

  -- Where the layers.json that is read, once the directories and the lock files are made, a missing
  -- one as an empty text, decodes to records with different ids, none of which names itself twice,
  -- and to no record where decoding fails, a layer store that newLayerStore returns has tables by
  -- id, name, prefix and digest that agree with its records, and so has one that newROLayerStore
  -- returns.
  pub new_layer_store-Coherent :
      (get_lockfile : Str → Exec p.env.World (Unit {0})) (run_dir layer_dir : Str) (w : p.env.World)
      (s : LayerStore p)
      → (OpensIntact p layer_dir (prepare p get_lockfile run_dir layer_dir w).1
          × ((new_layer_store get_lockfile run_dir layer_dir w).0 ≡ ok s))
        ⊎ (OpensIntact p layer_dir (prepare_ro p get_lockfile layer_dir w).1
            × ((new_ro_layer_store get_lockfile run_dir layer_dir w).0 ≡ ok s))
      → Coherent s
  unfolding new_layer_store new_ro_layer_store
  new_layer_store-Coherent get_lockfile run_dir layer_dir w s (inl (whole, h)) =
      let before = prepare p get_lockfile run_dir layer_dir w in
      let (a, e, h') = continue-ok before.0 _ before.1 h in
      open_store-Coherent run_dir layer_dir true before.1 s whole h'
  new_layer_store-Coherent get_lockfile run_dir layer_dir w s (inr (whole, h)) =
      let before = prepare_ro p get_lockfile layer_dir w in
      let (a, e, h') = continue-ok before.0 _ before.1 h in
      open_store-Coherent run_dir layer_dir false before.1 s whole h'
