-- ===== src/Layers/Delete.antt =====
-- Deletion of layers in layers.go: deleteInternal, Delete and Wipe.
use containers_storage.Prelude.{
  ℕ, zero, suc, Bool, false, ◌||◌, List, [], ◌∷◌, Str, str_eq, if◌then◌else◌,
}
use containers_storage.Prelude.GoMap
use containers_storage.Prelude.Int.{ℤ, pos, ltb_ℤ}
use containers_storage.Prelude.Exec.{ok, diverges, Exec, ◌>>=◌, ◌>>◌}
use containers_storage.Directory.{forget_item}
use containers_storage.Layers.{
  Layer, LayerPlatform, LayerStore, on_world, in_world, layer_at, ts_path, data_dir, lookup,
  with_layer, when_writable, layers_of,
}
use containers_storage.Layers.Mounts.{save, unlist_mount, mounted, unmount}
use containers_storage.Layers.Digests.{cut_everywhere}

-- Some candidate has the label.
unfoldable pub any_labelled : Str → List Layer → Bool
any_labelled label [] = false
any_labelled label (l ∷ ls) = str_eq l.mount_label label || any_labelled label ls

module _ {p : LayerPlatform} where
  -- os.Remove and os.RemoveAll, whose errors are dropped
  unfoldable pub remove_files : Str → LayerStore p → LayerStore p
  remove_files id s =
      in_world (λ w. (p.env.remove_all (data_dir s id) (p.remove_file (ts_path s id) w)).1) s

  -- The layer is taken out of every table.
  unfoldable pub forget_layer : ℕ → LayerStore p → LayerStore p
  unfolding forget_item cut_everywhere
  forget_layer r s = record s {
    tables = forget_item r s.tables;
    bymount = unlist_mount s r;
    bycompressedsum = cut_everywhere (layer_at s r).id s.bycompressedsum;
    byuncompressedsum = cut_everywhere (layer_at s r).id s.byuncompressedsum;
  }

  -- The label is let go of when no other layer has it.
  unfoldable pub release_label : Str → LayerStore p → LayerStore p
  unfolding any_labelled layers_of
  release_label label s =
      if str_eq label [] || any_labelled label (layers_of s)
      then s
      else in_world (p.labels.release label) s

  unfoldable pub delete_found : ℕ → Exec (LayerStore p) (Unit {0})
  unfolding forget_layer release_label remove_files
  delete_found r s =
      (do
        on_world (p.driver.remove (layer_at s r).id)
        λ t. (
          ok tt,
          release_label (layer_at s r).mount_label
              (forget_layer r (remove_files (layer_at s r).id t)),
        ))
        s

  unfoldable pub delete_internal : Str → Exec (LayerStore p) (Unit {0})
  unfolding lookup delete_found
  delete_internal id = when_writable (λ s. with_layer (lookup s id) delete_found s)

  -- The loop that unmounts until the count is not positive; its rounds are bounded by `fuel`.
  unfoldable pub unmount_all : ℕ → Str → ℤ → Exec (LayerStore p) (Unit {0})
  unfolding unmount mounted
  unmount_all zero id count s = if ltb_ℤ (pos 0) count then (diverges, s) else (ok tt, s)
  unmount_all (suc fuel) id count s =
      let again = (do unmount id false; left ← mounted id; unmount_all fuel id left) s in
      if ltb_ℤ (pos 0) count then again else (ok tt, s)

  -- Delete of a layer that was found, by its own id
  unfoldable pub delete_id : ℕ → Str → Exec (LayerStore p) (Unit {0})
  unfolding mounted unmount_all delete_internal save
  delete_id fuel id = do count ← mounted id; unmount_all fuel id count; delete_internal id; save

  unfoldable pub delete : ℕ → Str → Exec (LayerStore p) (Unit {0})
  unfolding lookup delete_id
  delete fuel name s = with_layer (lookup s name) (λ r t. delete_id fuel (layer_at t r).id t) s

  unfoldable pub delete_each : ℕ → List Str → Exec (LayerStore p) (Unit {0})
  unfolding delete
  delete_each fuel [] s = (ok tt, s)
  delete_each fuel (id ∷ ids) s = (do delete fuel id; delete_each fuel ids) s

  -- `order` is the order in which `range` yields the keys of a map.
  unfoldable pub wipe : ℕ → (List Str → List Str) → Exec (LayerStore p) (Unit {0})
  unfolding delete_each
  wipe fuel order = when_writable (λ s. delete_each fuel (order (GoMap.keys s.tables.byid)) s)
