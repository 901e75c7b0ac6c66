-- ===== src/Layers/Coherent/Calls.antt =====
-- Most of the calls of layers.go that change the store, one after the other, and the tables: what
-- they keep as long as the files they load are whole. PutAdditionalLayer, ApplyDiffWithDiffer,
-- ApplyDiffFromStagingDirectory and CleanupStagingDirectory are not among them: the first files a
-- digest wrongly (Additional.antt), and the third sets UncompressedDigest without its table.
use containers_storage.Layers.Coherent.Diffs.{apply_diff-Coherent}
use containers_storage.Prelude.{ℕ, Bool, Option, List, [], ◌∷◌, Str}
use containers_storage.Containers.{Value}
use containers_storage.Layers.{LayerPlatform, LayerStore, MountOpts, layers_path}
use containers_storage.Layers.Mounts.{save, mounted, unmount}
use containers_storage.Layers.Mount.{mount}
use containers_storage.Layers.Changes.{clear_flag, set_flag, set_names, set_metadata, set_big_data}
use containers_storage.Layers.Delete.{delete, wipe}
use containers_storage.Layers.Load.{load, reload_if_changed}
use containers_storage.Layers.Coherent.Loading.{Intact, load-Coherent}
use containers_storage.Layers.Coherent.Reloading.{ReloadsIntact, reload_if_changed-Coherent}
use containers_storage.Layers.Diff.{LayerOptions, apply_diff}
use containers_storage.Layers.Request.{Request}
use containers_storage.Layers.Put.{put}
use containers_storage.Layers.Coherent.{Coherent}
use containers_storage.Layers.Coherent.Saving.{save-Coherent}
use containers_storage.Layers.Coherent.Fields.{
  clear_flag-Coherent, set_flag-Coherent, set_names-Coherent, set_metadata-Coherent,
  set_big_data-Coherent, mounted-Coherent, mount-Coherent, unmount-Coherent,
}
use containers_storage.Layers.Coherent.Entries.{delete-Coherent, wipe-Coherent}
use containers_storage.Layers.Coherent.Puts.{put-Coherent}

-- Calls of the layer store that change it.
pub data Call : Type 0 where
  puts : ℕ → ℕ → ℕ → Str → Request → Call
  applies : Str → LayerOptions → Str → Call
  deletes : ℕ → Str → Call
  wipes : ℕ → (List Str → List Str) → Call
  mounts : Str → MountOpts → Call
  unmounts : Str → Bool → Call
  counts : Str → Call
  renames : Str → List Str → Call
  describes : Str → Str → Call
  flags : Str → Str → Value → Call
  unflags : Str → Str → Call
  stores : Str → Str → Option Str → Call
  saves loads reloads : Call

module _ {p : LayerPlatform} where
  unfoldable pub step : LayerStore p → Call → LayerStore p
  step s (puts draws rounds fuel id q) = (put draws rounds fuel id q s).1
  step s (applies to options diff) = (apply_diff to options diff s).1
  step s (deletes fuel id) = (delete fuel id s).1
  step s (wipes fuel order) = (wipe fuel order s).1
  step s (mounts id options) = (mount id options s).1
  step s (unmounts id force) = (unmount id force s).1
  step s (counts id) = (mounted id s).1
  step s (renames id names) = (set_names id names s).1
  step s (describes id metadata) = (set_metadata id metadata s).1
  step s (flags id flag value) = (set_flag id flag value s).1
  step s (unflags id flag) = (clear_flag id flag s).1
  step s (stores id key content) = (set_big_data id key content s).1
  step s saves = (save s).1
  step s loads = (load s).1
  step s reloads = (reload_if_changed s).1

  unfoldable pub run : LayerStore p → List Call → LayerStore p
  run s [] = s
  run s (c ∷ cs) = run (step s c) cs

module _ {p : LayerPlatform} where
  -- Load finds a whole file, and so does ReloadIfChanged where Modified says true, in the world that
  -- it leaves.
  unfoldable pub LoadsIntact : LayerStore p → Call → Type 0
  unfolding Intact
  LoadsIntact s loads = Intact p.unmarshal (p.env.read_file s.world (layers_path s))
  LoadsIntact s reloads = ReloadsIntact s
  LoadsIntact s c = Unit

  -- So it is wherever the calls of a run load a file.
  unfoldable pub RunIntact : LayerStore p → List Call → Type 0
  unfolding LoadsIntact
  RunIntact s [] = Unit
  RunIntact s (c ∷ cs) = LoadsIntact s c × RunIntact (step s c) cs

  step-Coherent : (s : LayerStore p) (c : Call) → LoadsIntact s c → Coherent s → Coherent (step s c)
  unfolding step LoadsIntact
  step-Coherent s (puts draws rounds fuel id q) whole v =
      (put-Coherent draws rounds fuel id q).at s v
  step-Coherent s (applies to options diff) whole v = (apply_diff-Coherent to options diff).at s v
  step-Coherent s (deletes fuel id) whole v = (delete-Coherent fuel id).at s v
  step-Coherent s (wipes fuel order) whole v = (wipe-Coherent fuel order).at s v
  step-Coherent s (mounts id options) whole v = (mount-Coherent id options).at s v
  step-Coherent s (unmounts id force) whole v = (unmount-Coherent id force).at s v
  step-Coherent s (counts id) whole v = (mounted-Coherent id).at s v
  step-Coherent s (renames id names) whole v = (set_names-Coherent id names).at s v
  step-Coherent s (describes id metadata) whole v = (set_metadata-Coherent id metadata).at s v
  step-Coherent s (flags id flag value) whole v = (set_flag-Coherent id flag value).at s v
  step-Coherent s (unflags id flag) whole v = (clear_flag-Coherent id flag).at s v
  step-Coherent s (stores id key content) whole v = (set_big_data-Coherent id key content).at s v
  step-Coherent s saves whole v = save-Coherent.at s v
  step-Coherent s loads whole v = load-Coherent s whole v
  step-Coherent s reloads whole v = reload_if_changed-Coherent s whole v

  -- Where each layers.json that a Load or ReloadIfChanged of the run reads, a missing one as an
  -- empty text, decodes to records with different ids, none of which names itself twice, and to no
  -- record where decoding fails, a run of Put, ApplyDiff, Delete, Wipe, Mount, Unmount, Mounted,
  -- SetNames, SetMetadata, SetFlag, ClearFlag, SetBigData, Save, Load and ReloadIfChanged takes a
  -- layer store whose tables by id, name, prefix and digest agree with its records to one whose
  -- tables agree, whatever the driver and the operating system return.
  pub run-Coherent :
      (s : LayerStore p) (cs : List Call) → RunIntact s cs → Coherent s → Coherent (run s cs)
  unfolding run RunIntact
  run-Coherent s [] whole v = v
  run-Coherent s (c ∷ cs) (whole, rest) v =
      run-Coherent (step s c) cs rest (step-Coherent s c whole v)
