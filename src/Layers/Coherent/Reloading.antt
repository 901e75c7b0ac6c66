-- ===== src/Layers/Coherent/Reloading.antt =====
-- ReloadIfChanged of layers.go keeps the tables in agreement, where the file that it reads is whole.
use containers_storage.Layers.Coherent.Loading.{Intact, load-Coherent}
use containers_storage.Prelude.{Bool, true, false, ◌||◌, if◌then◌else◌}
use containers_storage.Prelude.Exec.{
  WhereTrue, ok, Keeps-bind, Result, fails, panics, diverges, continue,
}
use containers_storage.Layers.{
  LayerPlatform, LayerStore, ModTime, modified_at, no_file, no_stat, on_world, layers_path,
}
use containers_storage.Layers.Load.{
  file_modified, either_modified, modified, load, reload_if_changed,
}
use containers_storage.Layers.Coherent.{
  KeepsCoherent, Coherent, on_world-Coherent, if-Coherent, return-Coherent, holding-Coherent,
}

module _ {p : LayerPlatform} where
  file_modified-Coherent :
      (time : ModTime) (s : LayerStore p) → Coherent s → Coherent (file_modified time s).1
  unfolding file_modified
  file_modified-Coherent (modified_at time) s v = record {
    tables = v.tables;
    compressed = v.compressed;
    uncompressed = v.uncompressed;
  }
  file_modified-Coherent no_file s v = v
  file_modified-Coherent no_stat s v = v

  either_modified-Coherent : (changed : Bool) → KeepsCoherent (either_modified {p = p} changed)
  unfolding either_modified
  either_modified-Coherent changed =
      if-Coherent (λ s. changed) _ _ (return-Coherent (ok true))
        (record { at = λ s v. file_modified-Coherent (p.mod_time s.world (layers_path s)) s v })

  modified-Coherent : KeepsCoherent (modified {p = p})
  unfolding modified
  modified-Coherent =
      Keeps-bind (on_world p.env.modified) _ (on_world-Coherent _) (λ layers_changed.
        if-Coherent (λ s. p.env.read_write s.world) _ _
          (holding-Coherent p.mounts.rlock _ (
            Keeps-bind (on_world p.mounts.modified) _ (on_world-Coherent _)
              (λ mounts_changed. either_modified-Coherent (layers_changed || mounts_changed))))
          (either_modified-Coherent layers_changed))

module _ {p : LayerPlatform} where
  -- Where Modified says true, the file that is read in the world that it leaves is whole.
  unfoldable pub ReloadsIntact : LayerStore p → Type 0
  unfolding WhereTrue
  ReloadsIntact s =
      WhereTrue (modified s).0
        (Intact p.unmarshal (p.env.read_file (modified s).1.world (layers_path (modified s).1)))

  pub reload_if_changed-Coherent :
      (s : LayerStore p) → ReloadsIntact s → Coherent s → Coherent (reload_if_changed s).1
  unfolding reload_if_changed ReloadsIntact
  reload_if_changed-Coherent s whole v =
      after (modified s).0 (modified s).1 whole (modified-Coherent.at s v)
    where
      after :
          (r : Result Bool) (t : LayerStore p)
          → WhereTrue r (Intact p.unmarshal (p.env.read_file t.world (layers_path t)))
          → Coherent t
          → Coherent (continue r (λ changed u. if changed then load u else (ok tt, u)) t).1
      after (ok true) t loaded w = load-Coherent t loaded w
      after (ok false) t loaded w = w
      after (fails e) t loaded w = w
      after panics t loaded w = w
      after diverges t loaded w = w
