-- ===== src/Images/Changes.antt =====
-- The methods of images.go that change one record: names, metadata, flags and mapped top layers.
use containers_storage.Prelude.{
  ℕ, none, some, List, [], ◌∷◌, ◌++◌, Str, length, ◌==◌, if◌then◌else◌,
}
use containers_storage.Prelude.GoMap
use containers_storage.Prelude.GoMap.{GoMap}
use containers_storage.Prelude.Exec.{ok, Exec}
use containers_storage.Names.{dedupe_names}
use containers_storage.StringUtils.{remove_from_slice}
use containers_storage.Containers.{Value}
use containers_storage.Containers.Delete.{unname_all}
use containers_storage.Images.{
  Image, ImageStore, ImagePlatform, modify, save, lookup, remove_name, when_writable, with_image,
}

unfoldable pub add_name_to_history : Image → Str → Image
add_name_to_history i name = record i { names_history = dedupe_names (name ∷ i.names_history) }

module _ {p : ImagePlatform} where
  -- One round of SetNames: the name leaves the image that has it, and joins the history of `r`.
  unfoldable pub take_image_name : ℕ → ImageStore p → Str → ImageStore p
  unfolding remove_name add_name_to_history
  take_image_name r s name =
      let t : ImageStore p = elim (GoMap.get s.byname name) [
        | none ↦ s
        | some holder ↦ remove_name s holder name
      ] in
      modify (record t { byname = GoMap.put t.byname name r }) r
        (add_name_to_history (t.heap.cell r) name)

  unfoldable pub take_image_names : ℕ → ImageStore p → List Str → ImageStore p
  unfolding take_image_name
  take_image_names r s [] = s
  take_image_names r s (name ∷ names) = take_image_names r (take_image_name r s name) names

  unfoldable pub rename_image : ℕ → List Str → ImageStore p → ImageStore p
  unfolding take_image_names unname_all
  rename_image r names s =
      let t =
        take_image_names r (record s { byname = unname_all s.byname (s.heap.cell r).names })
          names in
      modify t r (record (t.heap.cell r) { names = names })

  -- A change of the image that is looked up, and Save.
  abbrev pub change_image : Str → (ℕ → ImageStore p → ImageStore p) → Exec (ImageStore p) (Unit {0})
  change_image id change s = with_image (lookup s id) (λ r t. save (change r t)) s

  unfoldable pub set_image_names : Str → List Str → Exec (ImageStore p) (Unit {0})
  unfolding lookup rename_image
  set_image_names id names s =
      when_writable (change_image id (λ r. rename_image r (dedupe_names names))) s

  unfoldable pub set_image_metadata : Str → Str → Exec (ImageStore p) (Unit {0})
  unfolding lookup
  set_image_metadata id metadata s =
      when_writable
        (change_image id (λ r t. modify t r (record (t.heap.cell r) { metadata = metadata }))) s

  unfoldable pub set_image_flag : Str → Str → Value → Exec (ImageStore p) (Unit {0})
  unfolding lookup
  set_image_flag id flag value s =
      when_writable
        (change_image id (λ r t.
          let i = t.heap.cell r in modify t r (record i { flags = GoMap.put i.flags flag value })))
        s

  unfoldable pub clear_image_flag : Str → Str → Exec (ImageStore p) (Unit {0})
  unfolding lookup
  clear_image_flag id flag s =
      when_writable
        (change_image id (λ r t.
          let i = t.heap.cell r in modify t r (record i { flags = GoMap.del i.flags flag })))
        s

  unfoldable pub add_mapped_top_layer : Str → Str → Exec (ImageStore p) (Unit {0})
  unfolding lookup
  add_mapped_top_layer id layer s =
      change_image id
        (λ r t.
          let i = t.heap.cell r in
          modify t r (record i { mapped_top_layers = i.mapped_top_layers ++ layer ∷ [] }))
        s

  -- Where no layer was removed, nothing is saved.
  unfoldable pub drop_mapped_top_layer : ℕ → Str → Exec (ImageStore p) (Unit {0})
  unfolding remove_from_slice
  drop_mapped_top_layer r layer s =
      let i = s.heap.cell r in
      let left = remove_from_slice p.equal_fold i.mapped_top_layers layer in
      let t = modify s r (record i { mapped_top_layers = left }) in
      if length i.mapped_top_layers == length left then (ok tt, t) else save t

  unfoldable pub remove_mapped_top_layer : Str → Str → Exec (ImageStore p) (Unit {0})
  unfolding lookup drop_mapped_top_layer
  remove_mapped_top_layer id layer s =
      with_image (lookup s id) (λ r. drop_mapped_top_layer r layer) s
