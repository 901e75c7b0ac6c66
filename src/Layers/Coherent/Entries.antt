-- ===== src/Layers/Coherent/Entries.antt =====
-- The methods of layers.go that add and remove layers keep the tables in agreement.
use containers_storage.Prelude.{
  ℕ, zero, suc, ◌≡◌, true, false, ◌||◌, List, [], ◌∷◌, Str, str_eq, holds, Bool-cases, inl, inr,
}
use containers_storage.Prelude.GoMap
use containers_storage.Prelude.GoMap.{GoMap}
use containers_storage.Prelude.Int.{ℤ, pos, ltb_ℤ}
use containers_storage.Prelude.Exec.{Result, ok, fails, panics, diverges, Keeps-bind, continue}
use containers_storage.Directory.Forget.{forget_item-Agrees}
use containers_storage.Layers.{LayerPlatform, LayerStore, layer_at, layers_of}
use containers_storage.Layers.Mounts.{mounted, unmount}
use containers_storage.Layers.Delete.{
  remove_files, forget_layer, release_label, any_labelled, delete_found, delete_internal,
  unmount_all, delete_id, delete, delete_each, wipe,
}
use containers_storage.Layers.Filed.{forget_item-Filed}
use containers_storage.Layers.Coherent.{
  KeepsCoherent, Coherent, Coherent-world, if-Coherent, return-Coherent, when_writable-Coherent,
  with_layer-Coherent,
}
use containers_storage.Layers.Coherent.Saving.{save-Coherent}
use containers_storage.Layers.Coherent.Fields.{mounted-Coherent, unmount-Coherent}

module _ {p : LayerPlatform} where
  pub forget_layer-Coherent :
      (r : ℕ) (s : LayerStore p)
      → holds r s.tables.items ≡ true
      → Coherent s
      → Coherent (forget_layer r s)
  unfolding forget_layer
  forget_layer-Coherent r s live v = record {
    tables = forget_item-Agrees r s.tables v.tables live;
    compressed = forget_item-Filed r s.tables s.bycompressedsum v.tables live v.compressed;
    uncompressed = forget_item-Filed r s.tables s.byuncompressedsum v.tables live v.uncompressed;
  }

  remove_files-Coherent : (id : Str) (s : LayerStore p) → Coherent s → Coherent (remove_files id s)
  unfolding remove_files
  remove_files-Coherent id s v = Coherent-world s _ v

  release_label-Coherent :
      (label : Str) (s : LayerStore p) → Coherent s → Coherent (release_label label s)
  unfolding release_label
  release_label-Coherent label s v =
      elim (Bool-cases (str_eq label [] || any_labelled label (layers_of s))) [
        | inl e ↦ rw e v
        | inr e ↦ rw e (Coherent-world s _ v)
      ]

  -- `live` has to hold where the layer is forgotten, after the driver has removed it.
  delete_found-Coherent :
      (r : ℕ) (s : LayerStore p)
      → holds r s.tables.items ≡ true
      → Coherent s
      → Coherent (delete_found r s).1
  unfolding delete_found remove_files
  delete_found-Coherent r s live v =
      removed (p.driver.remove (layer_at s r).id s.world).0
        (p.driver.remove (layer_at s r).id s.world).1
    where
      removed :
          (o : Result (Unit {0})) (w : p.env.World)
          → Coherent
              (continue o
                (λ a t. (
                  ok tt,
                  release_label
                      (layer_at s r).mount_label
                      (forget_layer r (remove_files (layer_at s r).id t)),
                ))
                (record s { world = w })).1
      removed (ok u) w =
          release_label-Coherent (layer_at s r).mount_label _
            (forget_layer-Coherent r _ live (Coherent-world s _ v))
      removed (fails e) w = Coherent-world s w v
      removed panics w = Coherent-world s w v
      removed diverges w = Coherent-world s w v

  pub delete_internal-Coherent : (id : Str) → KeepsCoherent (delete_internal {p = p} id)
  unfolding delete_internal
  delete_internal-Coherent id =
      when_writable-Coherent _ (with_layer-Coherent id _ delete_found-Coherent)

  unmount_all-Coherent :
      (fuel : ℕ) (id : Str) (count : ℤ) → KeepsCoherent (unmount_all {p = p} fuel id count)
  unfolding unmount_all
  unmount_all-Coherent zero id count =
      if-Coherent (λ s. ltb_ℤ (pos 0) count) _ _ (return-Coherent diverges)
        (return-Coherent (ok tt))
  unmount_all-Coherent (suc fuel) id count =
      if-Coherent (λ s. ltb_ℤ (pos 0) count) _ _
        (Keeps-bind (unmount id false) _ (unmount-Coherent id false) (λ a.
          Keeps-bind (mounted id) _ (mounted-Coherent id)
            (λ left. unmount_all-Coherent fuel id left)))
        (return-Coherent (ok tt))

  delete_id-Coherent : (fuel : ℕ) (id : Str) → KeepsCoherent (delete_id {p = p} fuel id)
  unfolding delete_id
  delete_id-Coherent fuel id = Keeps-bind (mounted id) _ (mounted-Coherent id) (λ count.
      Keeps-bind (unmount_all fuel id count) _ (unmount_all-Coherent fuel id count)
        (λ a. Keeps-bind (delete_internal id) _ (delete_internal-Coherent id) (λ b. save-Coherent)))

  pub delete-Coherent : (fuel : ℕ) (name : Str) → KeepsCoherent (delete {p = p} fuel name)
  unfolding delete
  delete-Coherent fuel name =
      with_layer-Coherent name _ (λ r s live v. (delete_id-Coherent fuel (layer_at s r).id).at s v)

  delete_each-Coherent : (fuel : ℕ) (ids : List Str) → KeepsCoherent (delete_each {p = p} fuel ids)
  unfolding delete_each
  delete_each-Coherent fuel [] = return-Coherent (ok tt)
  delete_each-Coherent fuel (id ∷ ids) =
      Keeps-bind (delete fuel id) _ (delete-Coherent fuel id) (λ a. delete_each-Coherent fuel ids)

  pub wipe-Coherent :
      (fuel : ℕ) (order : List Str → List Str) → KeepsCoherent (wipe {p = p} fuel order)
  unfolding wipe
  wipe-Coherent fuel order =
      when_writable-Coherent _
        (record { at = λ s. (delete_each-Coherent fuel (order (GoMap.keys s.tables.byid))).at s })
