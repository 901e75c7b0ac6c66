-- ===== src/Layers/Coherent/Saving.antt =====
-- Save of layers.go and the mount information that it reads back keep the tables in agreement.
use containers_storage.Prelude.{
  ℕ, refl, Bool, true, false, Option, none, some, List, [], ◌∷◌, Str, str_eq, Bool-cases, inl, inr,
  ◌||◌,
}
use containers_storage.Prelude.GoMap
use containers_storage.Prelude.GoMap.{GoMap}
use containers_storage.Prelude.Exec.{
  Result, ok, fails, panics, diverges, Exec, Keeps-bind, not_locked, os_error, ◌>>=◌, ◌>>◌, or_fail,
}
use containers_storage.Env.{FileRead, contents, missing, unreadable}
use containers_storage.Layers.{
  LayerMountPoint, LayerPlatform, LayerStore, on_world, layer_at, modify, mounts_path, layers_path,
  layers_of,
}
use containers_storage.Layers.Mounts.{
  unmounted, clear_mounts, cleared, restore_mount, restore_mounts, load_mounts_data,
  load_mounts_read, load_mounts, save_mounts, save_layers, save, load_if_modified, reload_mounts,
  mounts_of,
}
use containers_storage.Layers.Coherent.{
  KeepsCoherent, Coherent, Coherent-world, Coherent-bymount, modify-Coherent, on_world-Coherent,
  afterwards-Coherent, if-Coherent, return-Coherent, holding-Coherent, when_writable-Coherent,
  or_fail-Coherent,
}

module _ {p : LayerPlatform} where
  clear_mounts-Coherent :
      (rs : List ℕ) (s : LayerStore p)
      → Coherent s
      → Coherent (record s { tables = record s.tables { heap = clear_mounts rs s.tables.heap } })
  unfolding clear_mounts
  clear_mounts-Coherent [] s v = v
  clear_mounts-Coherent (r ∷ rs) s v =
      clear_mounts-Coherent rs (modify s r (unmounted (layer_at s r)))
        (modify-Coherent s r (unmounted (layer_at s r)) refl refl refl refl v)

  restore_mount-Coherent :
      (m : LayerMountPoint) (o : Option ℕ) (s : LayerStore p) (mounts : GoMap ℕ)
      → Coherent s
      → Coherent (restore_mount m o (s, mounts)).0
  unfolding restore_mount
  restore_mount-Coherent m none s mounts v = v
  restore_mount-Coherent m (some r) s mounts v = modify-Coherent s r _ refl refl refl refl v

  restore_mounts-Coherent :
      (ms : List LayerMountPoint) (s : LayerStore p) (mounts : GoMap ℕ)
      → Coherent s
      → Coherent (restore_mounts ms (s, mounts)).0
  unfolding restore_mounts
  restore_mounts-Coherent [] s mounts v = v
  restore_mounts-Coherent (m ∷ ms) s mounts v =
      restore_mounts-Coherent ms _ _ (restore_mount-Coherent m _ s mounts v)

  load_mounts_data-Coherent :
      (content : Str) (s : LayerStore p) → Coherent s → Coherent (load_mounts_data content s).1
  unfolding load_mounts_data
  load_mounts_data-Coherent content s v =
      let ms = (p.unmarshal_mounts content).1 in
      elim (Bool-cases (str_eq content [] || (p.unmarshal_mounts content).0)) [
        | inl e ↦ rw e (
            Coherent-bymount _ _ (
              restore_mounts-Coherent ms (cleared s) GoMap.empty
                (clear_mounts-Coherent s.tables.items s v)))
        | inr e ↦ rw e (Coherent-bymount s GoMap.empty v)
      ]

  load_mounts_read-Coherent :
      (f : FileRead) (s : LayerStore p) → Coherent s → Coherent (load_mounts_read f s).1
  unfolding load_mounts_read
  load_mounts_read-Coherent (contents content) s v = load_mounts_data-Coherent content s v
  load_mounts_read-Coherent missing s v = load_mounts_data-Coherent [] s v
  load_mounts_read-Coherent unreadable s v = v

  pub load_mounts-Coherent : KeepsCoherent (load_mounts {p = p})
  unfolding load_mounts
  load_mounts-Coherent = record {
    at = λ s v. load_mounts_read-Coherent (p.env.read_file s.world (mounts_path s)) s v;
  }

  -- A file is made of what is encoded, if that succeeds, and something else follows.
  written-Coherent :
      {A : Type 0} (dir : Str) (encoded : Option Str) (m : Str → Exec (LayerStore p) A)
      → ((content : Str) → KeepsCoherent (m content))
      → KeepsCoherent
          (do on_world (p.env.mkdir_all dir); content ← or_fail encoded os_error; m content)
  written-Coherent dir encoded m k =
      Keeps-bind (on_world (p.env.mkdir_all dir)) _ (on_world-Coherent _)
        (λ a. Keeps-bind (or_fail encoded os_error) m (or_fail-Coherent encoded os_error) k)

  -- Save and its parts change no record but for its mount information.
  pub save_mounts-Coherent : KeepsCoherent (save_mounts {p = p})
  unfolding save_mounts
  save_mounts-Coherent = when_writable-Coherent _ (
      if-Coherent (λ s. p.mounts.locked s.world) _ _
        (record {
          at = λ s.
              (written-Coherent (p.env.dir_of (mounts_path s))
                  (p.marshal_mounts (mounts_of (layers_of s))) _
                  (λ content.
                    Keeps-bind (on_world (p.env.write_file (mounts_path s) content)) _
                      (on_world-Coherent _) (λ c. load_mounts-Coherent))).at
                s;
        })
        (return-Coherent (fails not_locked)))

  pub save_layers-Coherent : KeepsCoherent (save_layers {p = p})
  unfolding save_layers
  save_layers-Coherent = when_writable-Coherent _ (
      if-Coherent (λ s. p.env.locked s.world) _ _
        (record {
          at = λ s.
              (written-Coherent (p.env.dir_of (layers_path s)) (p.marshal (layers_of s)) _
                  (λ content.
                    afterwards-Coherent p.env.touch
                      (on_world (p.env.write_file (layers_path s) content))
                      (on_world-Coherent _))).at
                s;
        })
        (return-Coherent (fails not_locked)))

  pub save-Coherent : KeepsCoherent (save {p = p})
  unfolding save
  save-Coherent = holding-Coherent p.mounts.lock _ (
      afterwards-Coherent p.mounts.touch _
        (Keeps-bind save_layers _ save_layers-Coherent (λ a. save_mounts-Coherent)))

  load_if_modified-Coherent :
      (r : Result Bool) (s : LayerStore p) → Coherent s → Coherent (load_if_modified r s).1
  unfolding load_if_modified
  load_if_modified-Coherent (ok true) s v = load_mounts-Coherent.at s v
  load_if_modified-Coherent (ok false) s v = v
  load_if_modified-Coherent (fails e) s v = load_mounts-Coherent.at s v
  load_if_modified-Coherent panics s v = v
  load_if_modified-Coherent diverges s v = v

  pub reload_mounts-Coherent : KeepsCoherent (reload_mounts {p = p})
  unfolding reload_mounts
  reload_mounts-Coherent = record {
    at = λ s v. load_if_modified-Coherent (p.mounts.modified s.world).0 _ (Coherent-world s _ v);
  }
