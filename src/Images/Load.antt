-- ===== src/Images/Load.antt =====
-- imageStore.Load of images.go: the tables are built anew from the records on disk. The local maps of
-- the method are here the tables of a store that replaces the old one at the end.
use containers_storage.Prelude.{
  ℕ, Bool, true, false, not, ◌&&◌, ◌||◌, Option, none, some, List, [], ◌∷◌, map, Str, str_eq,
  if◌then◌else◌,
}
use containers_storage.Prelude.GoMap
use containers_storage.Prelude.GoMap.{GoMap}
use containers_storage.Prelude.Heap.{Heap, alloc}
use containers_storage.Prelude.Exec.{
  Result, os_error, invalid_digest, duplicate_image_names, ok, fails, panics, diverges, Exec,
}
use containers_storage.Env.{FileRead, contents, missing, unreadable}
use containers_storage.Containers.Create.{name_all}
use containers_storage.Images.{
  Image, ImageStore, ImagePlatform, images_path, save, remove_name, modify,
}
use containers_storage.Images.Digests.{recompute_digests, file_digests}

-- One fresh object for each decoded record.
unfoldable pub alloc_images : Heap Image → List Image → Heap Image × List ℕ
alloc_images h [] = (h, [])
alloc_images h (i ∷ is) = let (h', rs) = alloc_images (alloc h i) is in (h', h.next ∷ rs)

module _ {p : ImagePlatform} where
  -- The names of one record that other records have; they leave those, and the store has to be saved.
  unfoldable pub drop_conflicts : List Str → ImageStore p × Bool → ImageStore p × Bool
  unfolding remove_name
  drop_conflicts [] (t, need) = (t, need)
  drop_conflicts (name ∷ names) (t, need) = elim (GoMap.get t.byname name) [
    | none ↦ drop_conflicts names (t, need)
    | some holder ↦ drop_conflicts names (remove_name t holder name, true)
  ]

  abbrev pub enter_loaded : ℕ → Image → ImageStore p → ImageStore p
  enter_loaded r i t =
      record (modify t r (record i { read_only = not (p.env.read_write t.world) })) {
        byname = name_all t.byname i.names r;
        bydigest = file_digests t.bydigest i.digests r;
      }

  -- One record; `none` where its digests are not valid.
  unfoldable pub load_image :
      (GoMap Str → List (Str × Str)) → ℕ → ImageStore p × Bool → Option (ImageStore p × Bool)
  unfolding drop_conflicts recompute_digests name_all file_digests
  load_image order r (t, need) =
      let (u, needed) =
        drop_conflicts (t.heap.cell r).names
          (record t { byid = GoMap.put t.byid (t.heap.cell r).id r }, need) in
      elim (recompute_digests p.env order (u.heap.cell r)) [
        | none ↦ none
        | some i ↦ some (enter_loaded r i u, needed)
      ]

  unfoldable pub load_images :
      (GoMap Str → List (Str × Str)) → List ℕ → ImageStore p × Bool → Option (ImageStore p × Bool)
  unfolding load_image
  load_images order [] done = some done
  load_images order (r ∷ rs) done = elim (load_image order r done) [
    | none ↦ none
    | some more ↦ load_images order rs more
  ]

  abbrev pub blank_images : ImageStore p → List Image → ImageStore p
  blank_images s is =
      let (h, rs) = alloc_images s.heap is in
      record s {
        heap = h;
        images = rs;
        idindex = p.index.build [];
        byid = GoMap.empty;
        byname = GoMap.empty;
        bydigest = GoMap.empty;
      }

  -- r.idindex = truncindex.NewTruncIndex(idlist)
  abbrev pub with_index : ImageStore p → ImageStore p
  with_index t = record t { idindex = p.index.build (map (λ r. (t.heap.cell r).id) t.images) }

  -- Duplicate names can only be dropped by a writer that holds the lock. On an error the receiver has
  -- not been changed.
  unfoldable pub finish_load : Option (ImageStore p × Bool) → Exec (ImageStore p) (Unit {0})
  finish_load none s = (fails invalid_digest, s)
  finish_load (some (t, need)) s =
      if need && (not (p.env.read_write s.world) || not (p.env.locked s.world))
      then (fails duplicate_image_names, s)
      else if need
      then save (with_index t)
      else (ok tt, with_index t)

  unfoldable pub load_image_data :
      (GoMap Str → List (Str × Str)) → Str → Exec (ImageStore p) (Unit {0})
  unfolding finish_load load_images alloc_images
  load_image_data order content s =
      let (good, is) = p.unmarshal content in
      if str_eq content [] || good
      then finish_load (load_images order (blank_images s is).images (blank_images s is, false)) s
      else (ok tt, blank_images s is)

  unfoldable pub load_images_read :
      (GoMap Str → List (Str × Str)) → FileRead → Exec (ImageStore p) (Unit {0})
  unfolding load_image_data
  load_images_read order (contents content) s = load_image_data order content s
  load_images_read order missing s = load_image_data order [] s
  load_images_read order unreadable s = (fails os_error, s)

  unfoldable pub load_image_store : (GoMap Str → List (Str × Str)) → Exec (ImageStore p) (Unit {0})
  unfolding load_images_read
  load_image_store order s = load_images_read order (p.env.read_file s.world (images_path s)) s

  unfoldable pub load_images_if :
      (GoMap Str → List (Str × Str)) → Result Bool → Exec (ImageStore p) (Unit {0})
  unfolding load_image_store
  load_images_if order (ok true) s = load_image_store order s
  load_images_if order (ok false) s = (ok tt, s)
  load_images_if order (fails e) s = (fails e, s)
  load_images_if order panics s = (panics, s)
  load_images_if order diverges s = (diverges, s)

  -- The mutex on loading is left out.
  unfoldable pub reload_images_if_changed :
      (GoMap Str → List (Str × Str)) → Exec (ImageStore p) (Unit {0})
  unfolding load_images_if
  reload_images_if_changed order s =
      let (r, w) = p.env.modified s.world in load_images_if order r (record s { world = w })
