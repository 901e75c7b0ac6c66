-- ===== src/Layers/Changes.antt =====
-- The methods of layers.go that change one record: flags, names, metadata and big data items.
use containers_storage.Prelude.{ℕ, Option, List, [], ◌∷◌, ◌++◌, Str, str_eq, elem, if◌then◌else◌}
use containers_storage.Prelude.GoMap
use containers_storage.Prelude.GoMap.{GoMap}
use containers_storage.Prelude.Exec.{
  invalid_big_data_name, os_error, ok, fails, Exec, or_fail, ◌>>=◌, ◌>>◌,
}
use containers_storage.Env.{FileRead}
use containers_storage.Names.{dedupe_names}
use containers_storage.Containers.{Value}
use containers_storage.Directory.{set_names_of}
use containers_storage.Layers.{
  LayerPlatform, LayerStore, on_world, layer_at, modify, lookup, with_layer, when_writable,
  data_dir, data_path,
}
use containers_storage.Layers.Mounts.{save}

module _ {p : LayerPlatform} where
  abbrev pub with_flags : LayerStore p → ℕ → GoMap Value → LayerStore p
  with_flags s r flags = modify s r (record (layer_at s r) { flags = flags })

  unfoldable pub clear_flag : Str → Str → Exec (LayerStore p) (Unit {0})
  unfolding lookup save
  clear_flag id flag s =
      when_writable
        (λ t.
          with_layer (lookup t id)
            (λ r u. save (with_flags u r (GoMap.del (layer_at u r).flags flag))) t)
        s

  unfoldable pub set_flag : Str → Str → Value → Exec (LayerStore p) (Unit {0})
  unfolding lookup save
  set_flag id flag value s =
      when_writable
        (λ t.
          with_layer (lookup t id)
            (λ r u. save (with_flags u r (GoMap.put (layer_at u r).flags flag value))) t)
        s

  unfoldable pub set_names : Str → List Str → Exec (LayerStore p) (Unit {0})
  unfolding lookup save set_names_of dedupe_names
  set_names id names s =
      when_writable
        (λ t.
          with_layer (lookup t id)
            (λ r u. save (record u { tables = set_names_of r (dedupe_names names) u.tables })) t)
        s

  unfoldable pub set_metadata : Str → Str → Exec (LayerStore p) (Unit {0})
  unfolding lookup save
  set_metadata id metadata s =
      when_writable
        (λ t.
          with_layer (lookup t id)
            (λ r u. save (modify u r (record (layer_at u r) { metadata = metadata }))) t)
        s

  -- os.Open of the item's file, whose reading the caller does.
  unfoldable pub big_data : Str → Str → Exec (LayerStore p) FileRead
  unfolding lookup
  big_data id key s =
      if str_eq key []
      then (fails invalid_big_data_name, s)
      else with_layer (lookup s id)
          (λ r t. (ok (p.env.read_file t.world (data_path t (layer_at t r).id key)), t)) s

  unfoldable pub note_big_data : Str → ℕ → Exec (LayerStore p) (Unit {0})
  unfolding save
  note_big_data key r s =
      let l = layer_at s r in
      if elem key l.big_data_names
      then (ok tt, s)
      else save (modify s r (record l { big_data_names = l.big_data_names ++ key ∷ [] }))

  -- `content` is what the reader yields, or nothing where it fails.
  unfoldable pub write_big_data : Str → Option Str → ℕ → Exec (LayerStore p) (Unit {0})
  unfolding note_big_data
  write_big_data key content r s =
      (do
        on_world (p.env.mkdir_all (data_dir s (layer_at s r).id))
        written ← or_fail content os_error
        on_world (p.env.write_file (data_path s (layer_at s r).id key) written)
        note_big_data key r)
        s

  unfoldable pub set_big_data : Str → Str → Option Str → Exec (LayerStore p) (Unit {0})
  unfolding lookup write_big_data
  set_big_data id key content s =
      if str_eq key []
      then (fails invalid_big_data_name, s)
      else when_writable (λ t. with_layer (lookup t id) (write_big_data key content) t) s
