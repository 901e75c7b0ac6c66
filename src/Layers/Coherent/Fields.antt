-- ===== src/Layers/Coherent/Fields.antt =====
-- The methods of layers.go that change one record keep the tables in agreement.
use containers_storage.Prelude.{
  ℕ, ◌≡◌, refl, Bool, true, false, not, ◌&&◌, Option, List, [], Str, codes, str_eq, elem, holds,
  Bool-cases, Option-cases, inl, inr, if◌then◌else◌,
}
use containers_storage.Prelude.Int.{ℤ, pos, ltb_ℤ}
use containers_storage.Prelude.Exec.{
  invalid_big_data_name, os_error, shifting_not_enabled, store_is_read_only, Result, ok, fails,
  panics, diverges, Keeps-bind, ◌>>◌, or_fail, pure,
}
use containers_storage.Containers.{Value}
use containers_storage.Names.{dedupe_names}
use containers_storage.Directory.{set_names_of}
use containers_storage.Directory.Names.{set_names_of-Agrees, set_names_of-SameButNames}
use containers_storage.Layers.{
  LayerPlatform, LayerStore, MountOpts, on_world, layer_at, data_dir, data_path,
}
use containers_storage.Layers.Mounts.{
  save_mounts, mounted, record_unmount, unmount_layer, unmount_forced, put_error, let_go,
  find_mounted, unmount, with_count, reload_mounts,
}
use containers_storage.Layers.Mount.{
  still_mounted, record_mount, note_mount, mount_anew, mount_layer, mount, needs_shifting,
}
use containers_storage.Layers.Changes.{
  clear_flag, set_flag, set_names, set_metadata, note_big_data, write_big_data, set_big_data,
}
use containers_storage.Layers.Filed.{SameButNames-Filed}
use containers_storage.Layers.Coherent.{
  KeepsCoherent, Coherent, Coherent-world, Coherent-bymount, modify-Coherent, on_world-Coherent,
  afterwards-Coherent, if-Coherent, return-Coherent, holding-Coherent, when_writable-Coherent,
  with_layer-Coherent, or_fail-Coherent,
}
use containers_storage.Layers.Coherent.Saving.{
  save-Coherent, save_mounts-Coherent, reload_mounts-Coherent,
}

module _ {p : LayerPlatform} where
  pub clear_flag-Coherent : (id flag : Str) → KeepsCoherent (clear_flag {p = p} id flag)
  unfolding clear_flag
  clear_flag-Coherent id flag = when_writable-Coherent _ (
      with_layer-Coherent id _
        (λ r s live v. save-Coherent.at _ (modify-Coherent s r _ refl refl refl refl v)))

  pub set_flag-Coherent :
      (id flag : Str) (value : Value) → KeepsCoherent (set_flag {p = p} id flag value)
  unfolding set_flag
  set_flag-Coherent id flag value = when_writable-Coherent _ (
      with_layer-Coherent id _
        (λ r s live v. save-Coherent.at _ (modify-Coherent s r _ refl refl refl refl v)))

  pub set_metadata-Coherent : (id metadata : Str) → KeepsCoherent (set_metadata {p = p} id metadata)
  unfolding set_metadata
  set_metadata-Coherent id metadata = when_writable-Coherent _ (
      with_layer-Coherent id _
        (λ r s live v. save-Coherent.at _ (modify-Coherent s r _ refl refl refl refl v)))

  note_big_data-Coherent : (key : Str) (r : ℕ) → KeepsCoherent (note_big_data {p = p} key r)
  unfolding note_big_data
  note_big_data-Coherent key r =
      if-Coherent (λ s. elem key (layer_at s r).big_data_names) _ _ (return-Coherent (ok tt))
        (record { at = λ s v. save-Coherent.at _ (modify-Coherent s r _ refl refl refl refl v) })

  write_big_data-Coherent :
      (key : Str) (content : Option Str) (r : ℕ) (s : LayerStore p)
      → Coherent s
      → Coherent (write_big_data key content r s).1
  unfolding write_big_data
  write_big_data-Coherent key content r s v =
      let dir = data_dir s (layer_at s r).id in
      let file = data_path s (layer_at s r).id key in
      (Keeps-bind (on_world (p.env.mkdir_all dir)) _ (on_world-Coherent _) (λ a.
          Keeps-bind (or_fail content os_error) _ (or_fail-Coherent content os_error) (λ written.
            Keeps-bind (on_world (p.env.write_file file written)) _ (on_world-Coherent _)
              (λ c. note_big_data-Coherent key r)))).at
        s v

  pub set_big_data-Coherent :
      (id key : Str) (content : Option Str) → KeepsCoherent (set_big_data {p = p} id key content)
  unfolding set_big_data
  set_big_data-Coherent id key content =
      if-Coherent (λ s. str_eq key []) _ _ (return-Coherent (fails invalid_big_data_name))
        (when_writable-Coherent _
          (with_layer-Coherent id _ (λ r s live v. write_big_data-Coherent key content r s v)))

  pub mounted-Coherent : (id : Str) → KeepsCoherent (mounted {p = p} id)
  unfolding mounted
  mounted-Coherent id = when_writable-Coherent _ (
      holding-Coherent p.mounts.rlock _ (
        Keeps-bind reload_mounts _ reload_mounts-Coherent
          (λ a. with_layer-Coherent id _ (λ r s live v. v))))

  set_names_of-Coherent :
      (names : List Str) (r : ℕ) (s : LayerStore p)
      → holds r s.tables.items ≡ true
      → Coherent s
      → Coherent (record s { tables = set_names_of r names s.tables })
  set_names_of-Coherent names r s live v =
      let same = set_names_of-SameButNames r names s.tables v.tables live in
      record {
        tables = set_names_of-Agrees r names s.tables v.tables live;
        compressed =
            SameButNames-Filed (λ l ns. refl) s.tables (set_names_of r names s.tables)
              s.bycompressedsum same v.compressed;
        uncompressed =
            SameButNames-Filed (λ l ns. refl) s.tables (set_names_of r names s.tables)
              s.byuncompressedsum same v.uncompressed;
      }

  pub set_names-Coherent :
      (id : Str) (names : List Str) → KeepsCoherent (set_names {p = p} id names)
  unfolding set_names
  set_names-Coherent id names = when_writable-Coherent _ (
      with_layer-Coherent id _
        (λ r s live v. save-Coherent.at _ (set_names_of-Coherent (dedupe_names names) r s live v)))

  record_mount-Coherent :
      (path : Str) (r : ℕ) (s : LayerStore p) → Coherent s → Coherent (record_mount path r s)
  unfolding record_mount
  record_mount-Coherent path r s v =
      Coherent-bymount _ _ (modify-Coherent s r _ refl refl refl refl v)

  record_unmount-Coherent : (r : ℕ) (s : LayerStore p) → Coherent s → Coherent (record_unmount r s)
  unfolding record_unmount
  record_unmount-Coherent r s v = Coherent-bymount _ _ (modify-Coherent s r _ refl refl refl refl v)

  -- The state before the change is kept, the one after it is saved.
  saving-Coherent :
      {A : Type 0} (a : A) (s : LayerStore p) → Coherent s → Coherent ((do save_mounts; pure a) s).1
  saving-Coherent a s v =
      (Keeps-bind save_mounts (λ _. pure a) save_mounts-Coherent (λ _. return-Coherent (ok a))).at s
        v

  with_count-Coherent :
      (r : ℕ) (n : ℤ) (s : LayerStore p) → Coherent s → Coherent (with_count s r n)
  with_count-Coherent r n s v = modify-Coherent s r _ refl refl refl refl v

  note_mount-Coherent :
      (r : ℕ) (got : Result Str) (s : LayerStore p) → Coherent s → Coherent (note_mount r got s).1
  unfolding note_mount
  note_mount-Coherent r (ok path) s v = elim (Bool-cases (str_eq path [])) [
    | inl e ↦ rw e v
    | inr e ↦ rw e (saving-Coherent path _ (record_mount-Coherent (p.clean path) r s v))
  ]
  note_mount-Coherent r (fails e) s v = v
  note_mount-Coherent r panics s v = v
  note_mount-Coherent r diverges s v = v

  mount_anew-Coherent :
      (id : Str) (options : MountOpts) (r : ℕ) → KeepsCoherent (mount_anew {p = p} id options r)
  unfolding mount_anew
  mount_anew-Coherent id options r =
      if-Coherent (λ s. needs_shifting p.driver.supports_shifting options (layer_at s r)) _ _
        (return-Coherent (fails shifting_not_enabled))
        (record { at = λ s v. note_mount-Coherent r _ _ (Coherent-world s _ v) })

  mount_layer-Coherent :
      (id : Str) (options : MountOpts) (r : ℕ) → KeepsCoherent (mount_layer {p = p} id options r)
  unfolding mount_layer still_mounted
  mount_layer-Coherent id options r =
      Keeps-bind (still_mounted r) _
        (if-Coherent (λ s. ltb_ℤ (pos 0) (layer_at s r).mount_count) _ _
          (record { at = λ s. (on_world-Coherent (p.is_mounted (layer_at s r).mount_point)).at s })
          (return-Coherent (ok false)))
        (λ still.
          if-Coherent (λ s. still) _ _
            (record { at = λ s v. saving-Coherent _ _ (with_count-Coherent r _ s v) })
            (mount_anew-Coherent id options r))

  pub mount-Coherent : (id : Str) (options : MountOpts) → KeepsCoherent (mount {p = p} id options)
  unfolding mount
  mount-Coherent id options =
      if-Coherent (λ s. not (p.env.read_write s.world) && not (elem (codes "ro") options.options)) _
        _ (return-Coherent (fails store_is_read_only))
        (holding-Coherent p.mounts.lock _ (
          Keeps-bind reload_mounts _ reload_mounts-Coherent (λ a.
            afterwards-Coherent p.mounts.touch _ (
              with_layer-Coherent id _
                (λ r s live v. (mount_layer-Coherent id options r).at s v)))))

  put_error-Coherent :
      (put : Result (Unit {0})) (s : LayerStore p) → Coherent s → Coherent (put_error put s).1
  put_error-Coherent (ok u) s v = v
  put_error-Coherent (fails e) s v = v
  put_error-Coherent panics s v = v
  put_error-Coherent diverges s v = v

  forced-Coherent :
      (force : Bool) (r : ℕ) (s : LayerStore p)
      → Coherent s
      → Coherent (if force then with_count s r (pos 1) else s)
  forced-Coherent true r s v = with_count-Coherent r (pos 1) s v
  forced-Coherent false r s v = v

  unmount_forced-Coherent : (id : Str) (r : ℕ) → KeepsCoherent (unmount_forced {p = p} id r)
  unfolding unmount_forced
  unmount_forced-Coherent id r =
      if-Coherent (λ t. ltb_ℤ (pos 1) (layer_at t r).mount_count) _ _
        (record { at = λ s v. saving-Coherent true _ (with_count-Coherent r _ s v) })
        (if-Coherent (λ t. let_go (p.driver.put id t.world).0) _ _
          (record {
            at =
                λ s v. saving-Coherent false _ (record_unmount-Coherent r _ (Coherent-world s _ v));
          })
          (record {
            at = λ s v. put_error-Coherent (p.driver.put id s.world).0 _ (Coherent-world s _ v);
          }))

  pub unmount-Coherent : (id : Str) (force : Bool) → KeepsCoherent (unmount {p = p} id force)
  unfolding unmount unmount_layer
  unmount-Coherent id force = when_writable-Coherent _ (
      holding-Coherent p.mounts.lock _ (
        Keeps-bind reload_mounts _ reload_mounts-Coherent (λ a.
          afterwards-Coherent p.mounts.touch _ (record {
            at = λ s v. elim (Option-cases (find_mounted s id)) [
              | inl e ↦ rw e v
              | inr (r, e) ↦
                  rw e ((unmount_forced-Coherent id r).at _ (forced-Coherent force r s v))
            ];
          }))))
