-- ===== src/Layers/Mount.antt =====
-- layerStore.Mount of layers.go.
use containers_storage.Prelude.{
  ℕ, Bool, true, false, not, ◌&&◌, ◌||◌, Option, none, some, List, [], ◌∷◌, Str, codes, str_eq,
  elem, is_some, if◌then◌else◌,
}
use containers_storage.Prelude.GoMap
use containers_storage.Prelude.Int.{pos, ◌+ℤ◌, ltb_ℤ, eqb_ℤ}
use containers_storage.Prelude.Exec.{
  store_is_read_only, shifting_not_enabled, Result, ok, fails, panics, diverges, Exec, pure, ◌>>=◌,
  ◌>>◌,
}
use containers_storage.IdTools.{IdMap}
use containers_storage.Layers.{
  Layer, LayerPlatform, LayerStore, MountOpts, on_world, afterwards, layer_at, modify, lookup,
  with_layer,
}
use containers_storage.Layers.Mounts.{
  holding_mounts, reload_mounts, save_mounts, unlist_mount, with_count,
}

unfoldable pub eqb_id_map : IdMap → IdMap → Bool
eqb_id_map m n =
    eqb_ℤ m.container_id n.container_id && eqb_ℤ m.host_id n.host_id && eqb_ℤ m.size n.size

unfoldable pub eqb_id_maps : List IdMap → List IdMap → Bool
unfolding eqb_id_map
eqb_id_maps [] [] = true
eqb_id_maps [] (n ∷ ns) = false
eqb_id_maps (m ∷ ms) [] = false
eqb_id_maps (m ∷ ms) (n ∷ ns) = eqb_id_map m n && eqb_id_maps ms ns

-- reflect.DeepEqual, which tells a nil slice from an empty one
unfoldable pub same_maps : Option (List IdMap) → Option (List IdMap) → Bool
unfolding eqb_id_maps
same_maps none none = true
same_maps none (some ns) = false
same_maps (some ms) none = false
same_maps (some ms) (some ns) = eqb_id_maps ms ns

-- The mappings asked for are not those of the layer, and the driver cannot shift between them.
unfoldable pub needs_shifting : Bool → MountOpts → Layer → Bool
unfolding same_maps
needs_shifting shifts options l =
    (is_some options.uid_maps || is_some options.gid_maps)
    && not shifts
    && not (same_maps options.uid_maps l.uid_map && same_maps options.gid_maps l.gid_map)

module _ {p : LayerPlatform} where
  -- if layer.MountCount > 0 { mount.Mounted(layer.MountPoint) }
  unfoldable pub still_mounted : ℕ → Exec (LayerStore p) Bool
  still_mounted r s =
      if ltb_ℤ (pos 0) (layer_at s r).mount_count
      then on_world (p.is_mounted (layer_at s r).mount_point) s
      else (ok false, s)

  -- The layer was mounted at the path.
  unfoldable pub record_mount : Str → ℕ → LayerStore p → LayerStore p
  record_mount path r s =
      let t = modify s r (record (layer_at s r) {
        mount_point = path;
        mount_count = (layer_at s r).mount_count +ℤ pos 1;
      }) in
      record t { bymount = GoMap.put (unlist_mount s r) path r }

  -- What the driver returned. A path beside an error of saveMounts is dropped here.
  unfoldable pub note_mount : ℕ → Result Str → Exec (LayerStore p) Str
  unfolding record_mount save_mounts
  note_mount r (ok path) s =
      if str_eq path []
      then (ok path, s)
      else (do save_mounts; pure path) (record_mount (p.clean path) r s)
  note_mount r (fails e) s = (fails e, s)
  note_mount r panics s = (panics, s)
  note_mount r diverges s = (diverges, s)

  unfoldable pub mount_anew : Str → MountOpts → ℕ → Exec (LayerStore p) Str
  unfolding needs_shifting note_mount
  mount_anew id options r s =
      let label =
        if str_eq options.mount_label [] then (layer_at s r).mount_label else options.mount_label in
      let (got, w) = p.driver.get id (record options { mount_label = label }) s.world in
      if needs_shifting p.driver.supports_shifting options (layer_at s r)
      then (fails shifting_not_enabled, s)
      else note_mount r got (record s { world = w })

  unfoldable pub mount_layer : Str → MountOpts → ℕ → Exec (LayerStore p) Str
  unfolding still_mounted mount_anew save_mounts
  mount_layer id options r = do
    still ← still_mounted r
    λ s.
        if still
        then (do save_mounts; pure (layer_at s r).mount_point)
            (with_count s r ((layer_at s r).mount_count +ℤ pos 1))
        else mount_anew id options r s

  -- A store that is only read mounts with the option `ro`.
  unfoldable pub mount : Str → MountOpts → Exec (LayerStore p) Str
  unfolding reload_mounts lookup mount_layer
  mount id options s =
      if not (p.env.read_write s.world) && not (elem (codes "ro") options.options)
      then (fails store_is_read_only, s)
      else holding_mounts p.mounts.lock
          (do
            reload_mounts
            afterwards p.mounts.touch (λ t. with_layer (lookup t id) (mount_layer id options) t))
          s
