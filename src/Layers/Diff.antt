-- ===== src/Layers/Diff.antt =====
-- applyDiffWithOptions of layers.go: a layer's contents, and what is noted of them.
use containers_storage.Prelude.{
  ℕ, Option, Bool, not, ◌&&◌, List, [], ◌∷◌, Str, str_eq, if◌then◌else◌, leb,
}
use containers_storage.Prelude.Int.{ℤ}
use containers_storage.Prelude.Exec.{Exec, pure, ◌>>=◌, ◌>>◌}
use containers_storage.IdTools.{IdMap, IdMappings}
use containers_storage.Layers.{
  Applied, Layer, LayerPlatform, LayerStore, on_world, layer_at, modify, lookup, with_layer,
  when_writable, ts_path,
}
use containers_storage.Layers.Mounts.{save}
use containers_storage.Layers.Digests.{update_digest_map}

-- The fields of store.go's LayerOptions.
pub record LayerOptions : Type 0 where
  pub uid_map : Option (List IdMap)
  pub gid_map : Option (List IdMap)
  pub template_layer : Str
  pub original_digest : Str
  pub uncompressed_digest : Str

unfoldable pub insert_sorted : ℕ → List ℕ → List ℕ
insert_sorted x [] = x ∷ []
insert_sorted x (y ∷ ys) = let rest = insert_sorted x ys in if leb x y then x ∷ y ∷ ys else y ∷ rest

-- sort.Slice with the order of numbers
unfoldable pub sort_ids : List ℕ → List ℕ
unfolding insert_sorted
sort_ids [] = []
sort_ids (x ∷ xs) = insert_sorted x (sort_ids xs)

-- idtools.NewIDMappingsFromMaps
abbrev pub mappings_of : Layer → IdMappings
mappings_of l = record { uids = l.uid_map; gids = l.gid_map }

-- A digest of the canonical algorithm that the caller knows is not computed.
unfoldable pub known_or : (Str → Bool) → Str → Str → Str
known_or canonical known computed =
    if not (str_eq known []) && canonical known then known else computed

abbrev pub described : (Str → Bool) → LayerOptions → Applied → Layer → Layer
described canonical options a l = record l {
  compressed_digest = known_or canonical options.original_digest a.compressed_digest;
  compressed_size = a.compressed_size;
  uncompressed_digest = known_or canonical options.uncompressed_digest a.uncompressed_digest;
  uncompressed_size = a.uncompressed_size;
  compression_type = a.compression_type;
  uids = sort_ids a.uids;
  gids = sort_ids a.gids;
}

module _ {p : LayerPlatform} where
  -- The layer and the tables of digests after its contents were applied.
  unfoldable pub record_diff : LayerOptions → Applied → ℕ → LayerStore p → LayerStore p
  unfolding update_digest_map known_or sort_ids
  record_diff options a r s =
      let l = layer_at s r in
      let t = modify s r (described p.canonical options a l) in
      record t {
        bycompressedsum =
            update_digest_map s.bycompressedsum l.compressed_digest
              (described p.canonical options a l).compressed_digest l.id;
        byuncompressedsum =
            update_digest_map s.byuncompressedsum l.uncompressed_digest
              (described p.canonical options a l).uncompressed_digest l.id;
      }

  unfoldable pub apply_diff_at : LayerOptions → Str → ℕ → Exec (LayerStore p) ℤ
  unfolding record_diff save
  apply_diff_at options diff r s =
      let l = layer_at s r in
      (do
        applied ← on_world (p.driver.apply_stream diff l.id l.parent (mappings_of l) l.mount_label)
        on_world (p.env.mkdir_all (p.env.dir_of (ts_path s l.id)))
        on_world (p.env.write_file (ts_path s l.id) applied.tar_split)
        λ t. (do save; pure applied.size) (record_diff options applied r t))
        s

  unfoldable pub apply_diff : Str → LayerOptions → Str → Exec (LayerStore p) ℤ
  unfolding lookup apply_diff_at
  apply_diff to options diff =
      when_writable (λ s. with_layer (lookup s to) (apply_diff_at options diff) s)
