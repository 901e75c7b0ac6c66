-- ===== src/Images/Delete.antt =====
-- imageStore.Delete and Wipe of images.go.
use containers_storage.Prelude.{
  ℕ, suc, Option, none, some, List, [], ◌∷◌, Str, str_eq, if◌then◌else◌,
}
use containers_storage.Prelude.GoMap
use containers_storage.Prelude.GoMap.{GoMap}
use containers_storage.Prelude.Exec.{image_unknown, ok, fails, Exec, ◌>>◌, continue}
use containers_storage.Slices.{cut_found}
use containers_storage.Containers.Delete.{unname_all}
use containers_storage.Images.{
  Image, ImageStore, ImagePlatform, on_world, when_writable, save, lookup, data_dir,
}
use containers_storage.Images.Digests.{unfile_digests}

-- The loop has no break: the position of the last candidate with the id.
unfoldable pub last_index_of : (ℕ → Image) → List ℕ → Str → Option ℕ
last_index_of cell [] id = none
last_index_of cell (r ∷ rs) id = elim (last_index_of cell rs id) [
  | some i ↦ some (suc i)
  | none ↦ if str_eq (cell r).id id then some 0 else none
]

module _ {p : ImagePlatform} where
  -- The image that `r` points to is taken out of every table.
  unfoldable pub forget_image : ℕ → ImageStore p → ImageStore p
  unfolding last_index_of cut_found unname_all unfile_digests
  forget_image r s =
      let i = s.heap.cell r in
      record s {
        byid = GoMap.del s.byid i.id;
        idindex = (p.index.delete s.idindex i.id).1;
        byname = unname_all s.byname i.names;
        bydigest = unfile_digests s.bydigest i.digests r;
        images = cut_found s.images (last_index_of s.heap.cell s.images i.id);
      }

  unfoldable pub delete_image_at : Option ℕ → Exec (ImageStore p) (Unit {0})
  unfolding forget_image
  delete_image_at none s = (fails image_unknown, s)
  delete_image_at (some r) s =
      (do save; on_world (p.env.remove_all (data_dir s (s.heap.cell r).id))) (forget_image r s)

  unfoldable pub delete_image : Str → Exec (ImageStore p) (Unit {0})
  unfolding delete_image_at lookup
  delete_image id s = when_writable (λ t. delete_image_at (lookup t id) t) s

  unfoldable pub delete_images : List Str → Exec (ImageStore p) (Unit {0})
  unfolding delete_image
  delete_images [] s = (ok tt, s)
  delete_images (id ∷ ids) s =
      continue (delete_image id s).0 (λ _. delete_images ids) (delete_image id s).1

  -- `order` is the order in which `range` yields the keys of a map.
  unfoldable pub wipe_images : (List Str → List Str) → Exec (ImageStore p) (Unit {0})
  unfolding delete_images
  wipe_images order s = when_writable (λ t. delete_images (order (GoMap.keys t.byid)) t) s
