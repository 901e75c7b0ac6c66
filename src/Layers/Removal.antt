-- ===== src/Layers/Removal.antt =====
-- What deleteInternal of layers.go takes out of the tables.
use containers_storage.Prelude.{
  ℕ, ◌≡◌, refl, true, not, ◌&&◌, ◌||◌, none, some, arith, Str, str_eq, elem, holds, ◌==◌,
  Bool-cases, inl, inr, if◌then◌else◌, [],
}
use containers_storage.Prelude.GoMap
use containers_storage.Prelude.GoMap.{GoMap}
use containers_storage.Prelude.Exec.{Error, ok, fails}
use containers_storage.Containers.Invariant.Delete.{get-unname_all}
use containers_storage.Directory.{forget_item}
use containers_storage.Directory.Forget.{holds-forget_item}
use containers_storage.Layers.{LayerPlatform, LayerStore, layer_at, lookup, layers_of}
use containers_storage.Layers.Digests.{ids_under}
use containers_storage.Layers.Delete.{
  delete_internal, delete_found, forget_layer, release_label, remove_files, any_labelled,
}
use containers_storage.Layers.Filing.{elem-cut_id, ids_under-cut_everywhere}
use containers_storage.Layers.Coherent.{Coherent, Coherent-world, lookup-holds}

-- `t` is `s` without the layer that `r` points to.
pub record Removed {p : LayerPlatform} (r : ℕ) (s t : LayerStore p) : Type 0 where
  pub ids :
      (n : Str)
      → GoMap.get t.tables.byid n
        ≡ (if str_eq (layer_at s r).id n then none else GoMap.get s.tables.byid n)
  pub names :
      (n : Str)
      → GoMap.get t.tables.byname n
        ≡ (if elem n (layer_at s r).names then none else GoMap.get s.tables.byname n)
  pub items : (q : ℕ) → holds q t.tables.items ≡ holds q s.tables.items && not (r == q)
  pub records : (q : ℕ) → layer_at t q ≡ layer_at s q
  pub mounts :
      (path : Str)
      → GoMap.get t.bymount path ≡ (
          if not (str_eq (layer_at s r).mount_point []) && str_eq (layer_at s r).mount_point path
          then none
          else GoMap.get s.bymount path)
  pub compressed :
      (d id : Str)
      → elem id (ids_under t.bycompressedsum d)
        ≡ elem id (ids_under s.bycompressedsum d) && not (str_eq (layer_at s r).id id)
  pub uncompressed :
      (d id : Str)
      → elem id (ids_under t.byuncompressedsum d)
        ≡ elem id (ids_under s.byuncompressedsum d) && not (str_eq (layer_at s r).id id)

module _ {p : LayerPlatform} where
  forget_layer-Removed :
      (r : ℕ) (s : LayerStore p)
      → Coherent s
      → holds r s.tables.items ≡ true
      → Removed r s (forget_layer r s)
  unfolding forget_layer forget_item
  forget_layer-Removed r s v live = record {
    ids = λ n. GoMap.get-del s.tables.byid (layer_at s r).id n;
    names = λ n. get-unname_all s.tables.byname (layer_at s r).names n;
    items = λ q. holds-forget_item r s.tables v.tables live q;
    records = λ q. refl;
    mounts = λ path. ground (arith, GoMap.get-del s.bymount (layer_at s r).mount_point path);
    compressed = λ d id. ground (
      arith,
      v.compressed.once d,
      ids_under-cut_everywhere (layer_at s r).id s.bycompressedsum d,
      elem-cut_id (layer_at s r).id id (ids_under s.bycompressedsum d),
    );
    uncompressed = λ d id. ground (
      arith,
      v.uncompressed.once d,
      ids_under-cut_everywhere (layer_at s r).id s.byuncompressedsum d,
      elem-cut_id (layer_at s r).id id (ids_under s.byuncompressedsum d),
    );
  }

  release_label-Removed :
      (label : Str) (r : ℕ) (s t : LayerStore p)
      → Removed r s t
      → Removed r s (release_label label t)
  unfolding release_label
  release_label-Removed label r s t v =
      elim (Bool-cases (str_eq label [] || any_labelled label (layers_of t))) [
        | inl e ↦ rw e v
        | inr e ↦ rw e (record {
          ids = v.ids;
          names = v.names;
          items = v.items;
          records = v.records;
          mounts = v.mounts;
          compressed = v.compressed;
          uncompressed = v.uncompressed;
        })
      ]

  -- In a writable store whose tables agree, deleteInternal of an id, name or prefix that leads to a layer
  -- succeeds where the driver removes the layer, takes it out of the slice and of the tables by id, by
  -- name, by mount point and by digest, and leaves all other records and entries. Where the driver
  -- fails, its error is returned and the store is as it was, but for the world.
  pub delete_internal-Removed :
      (name : Str) (r : ℕ) (s : LayerStore p)
      → Coherent s
      → p.env.read_write s.world ≡ true
      → lookup s name ≡ some r
      → ((w : p.env.World)
          → p.driver.remove (layer_at s r).id s.world ≡ (ok tt, w)
          → ((delete_internal name s).0 ≡ ok tt) × Removed r s (delete_internal name s).1)
        × ((e : Error) (w : p.env.World)
            → p.driver.remove (layer_at s r).id s.world ≡ (fails e, w)
            → delete_internal name s ≡ (fails e, record s { world = w }))
  unfolding delete_internal delete_found remove_files
  delete_internal-Removed name r s v writable found = (
    λ w h.
        rw (writable, found, h)
          (refl, release_label-Removed (layer_at s r).mount_label r s _ (forget_removed_files w)),
    λ e w h. rw (writable, found, h) refl,
  )
    where
      forget_removed_files :
          (w : p.env.World)
          → Removed r s (forget_layer r (remove_files (layer_at s r).id (record s { world = w })))
      forget_removed_files w =
          let t = remove_files (layer_at s r).id (record s { world = w }) in
          let g =
            forget_layer-Removed r t (Coherent-world s t.world v) (lookup-holds s name r v found) in
          record {
            ids = g.ids;
            names = g.names;
            items = g.items;
            records = g.records;
            mounts = g.mounts;
            compressed = g.compressed;
            uncompressed = g.uncompressed;
          }
