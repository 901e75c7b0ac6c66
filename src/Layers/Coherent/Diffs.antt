-- ===== src/Layers/Coherent/Diffs.antt =====
-- applyDiffWithOptions of layers.go keeps the tables in agreement.
use containers_storage.Prelude.{ℕ, ◌≡◌, refl, true, Str, holds}
use containers_storage.Prelude.Exec.{ok, Exec, Keeps-bind, continue_keeps, ◌>>=◌, ◌>>◌, pure}
use containers_storage.Directory.Agrees.{write_item-Agrees}
use containers_storage.Layers.{Applied, LayerPlatform, LayerStore, on_world, layer_at, ts_path}
use containers_storage.Layers.Mounts.{save}
use containers_storage.Layers.Diff.{
  LayerOptions, described, mappings_of, record_diff, apply_diff_at, apply_diff,
}
use containers_storage.Layers.Filed.{update_digest_map-Filed}
use containers_storage.Layers.Coherent.{
  KeepsCoherent, Coherent, Coherent-world, return-Coherent, when_writable-Coherent,
  with_layer-Coherent,
}
use containers_storage.Layers.Coherent.Saving.{save-Coherent}

module _ {p : LayerPlatform} where
  record_diff-Coherent :
      (options : LayerOptions) (a : Applied) (r : ℕ) (s : LayerStore p)
      → holds r s.tables.items ≡ true
      → Coherent s
      → Coherent (record_diff options a r s)
  unfolding record_diff
  record_diff-Coherent options a r s live v =
      let l = described p.canonical options a (layer_at s r) in
      record {
        tables = write_item-Agrees s.tables r l refl refl v.tables;
        compressed =
            update_digest_map-Filed s.tables s.bycompressedsum r l.compressed_digest v.tables live
              v.compressed l refl refl;
        uncompressed =
            update_digest_map-Filed s.tables s.byuncompressedsum r l.uncompressed_digest v.tables
              live v.uncompressed l refl refl;
      }

  -- A coherent store in which `r` is listed.
  abbrev Listed : ℕ → LayerStore p → Type 0
  Listed r s = Coherent s × (holds r s.tables.items ≡ true)

  -- What the environment does first leaves the layer listed for what follows.
  after_world-Coherent :
      {A B : Type 0} (r : ℕ) (m : Exec p.env.World A) (f : A → Exec (LayerStore p) B)
      → ((a : A) (s : LayerStore p) → Listed r s → Coherent (f a s).1)
      → (s : LayerStore p) → Listed r s
      → Coherent ((on_world m >>= f) s).1
  after_world-Coherent r m f k s (v, live) =
      continue_keeps Coherent (m s.world).0 f (record s { world = (m s.world).1 })
        (Coherent-world s _ v) (λ a h. k a _ (Coherent-world s _ v, live))

  record_and_save-Coherent :
      (options : LayerOptions) (a : Applied) (r : ℕ) (s : LayerStore p)
      → Listed r s
      → Coherent ((do save; pure a.size) (record_diff options a r s)).1
  record_and_save-Coherent options a r s (v, live) =
      (Keeps-bind save (λ _. pure a.size) save-Coherent (λ _. return-Coherent (ok a.size))).at _
        (record_diff-Coherent options a r s live v)

  apply_diff_at-Coherent :
      (options : LayerOptions) (diff : Str) (r : ℕ) (s : LayerStore p)
      → holds r s.tables.items ≡ true
      → Coherent s
      → Coherent (apply_diff_at options diff r s).1
  unfolding apply_diff_at
  apply_diff_at-Coherent options diff r s live v =
      let l = layer_at s r in
      after_world-Coherent r
        (p.driver.apply_stream diff l.id l.parent (mappings_of l) l.mount_label) _
        (λ a. after_world-Coherent r (p.env.mkdir_all (p.env.dir_of (ts_path s l.id))) _ (λ b.
          after_world-Coherent r (p.env.write_file (ts_path s l.id) a.tar_split) _
            (λ c. record_and_save-Coherent options a r)))
        s (v, live)

  pub apply_diff-Coherent :
      (to : Str) (options : LayerOptions) (diff : Str)
      → KeepsCoherent (apply_diff {p = p} to options diff)
  unfolding apply_diff
  apply_diff-Coherent to options diff =
      when_writable-Coherent _ (with_layer-Coherent to _ (apply_diff_at-Coherent options diff))
