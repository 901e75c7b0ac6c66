-- ===== src/Images/BigData.antt =====
-- The big data items of images.go. An item whose name begins with `manifest` has a digest from a
-- function of the caller, and by that digest the image is found.
use containers_storage.Prelude.{
  ℕ, Bool, not, ◌||◌, Option, none, some, List, [], ◌∷◌, ◌++◌, Str, str_eq, elem, length,
  if◌then◌else◌,
}
use containers_storage.Prelude.GoMap
use containers_storage.Prelude.GoMap.{GoMap}
use containers_storage.Prelude.Exec.{
  invalid_big_data_name, invalid_digest, size_unknown, digest_unknown, os_error, Result, ok, fails,
  Exec, ◌>>◌, ◌>>=◌,
}
use containers_storage.Env.{Env}
use containers_storage.Containers.BigData.{file_result, number_differs, digest_differs}
use containers_storage.Images.{
  Image, ImageStore, ImagePlatform, on_world, modify, save, lookup, data_dir, data_path,
  when_writable, with_image,
}
use containers_storage.Images.Digests.{
  big_data_name_is_manifest, recompute_digests, refile_digests, unfile_digests,
}

unfoldable pub with_image_data : Image → Str → Str → Str → Image
with_image_data i key content new_digest = record i {
  big_data_sizes = GoMap.put i.big_data_sizes key (length content);
  big_data_digests = GoMap.put i.big_data_digests key new_digest;
  big_data_names =
      if elem key i.big_data_names then i.big_data_names else i.big_data_names ++ key ∷ [];
}

unfoldable pub image_data_changes : Image → Str → Str → Str → Bool
image_data_changes i key content new_digest =
    number_differs (GoMap.get i.big_data_sizes key) (length content)
    || digest_differs (GoMap.get i.big_data_digests key) new_digest
    || not (elem key i.big_data_names)

-- A size that is not recorded is taken from the file.
abbrev pub measured : Result Str → Result ℕ
measured (ok content) = ok (length content)
measured _ = fails size_unknown

-- The digest of an item; the function for manifests may be nil.
abbrev pub manifest_digest : Option (Str → Option Str) → Str → Result Str
manifest_digest none content = fails digest_unknown
manifest_digest (some f) content = elim (f content) [ none ↦ fails os_error | some d ↦ ok d ]

unfoldable pub item_digest : Env → Option (Str → Option Str) → Str → Str → Result Str
unfolding big_data_name_is_manifest
item_digest env f key content =
    if big_data_name_is_manifest key then manifest_digest f content else ok (env.digest_of content)

module _ {p : ImagePlatform} where
  unfoldable pub image_big_data : Str → Str → Exec (ImageStore p) Str
  unfolding lookup
  image_big_data id key s =
      if str_eq key []
      then (fails invalid_big_data_name, s)
      else with_image (lookup s id)
          (λ r t. (file_result (p.env.read_file t.world (data_path t (t.heap.cell r).id key)), t)) s

  unfoldable pub image_big_data_size : Str → Str → Exec (ImageStore p) ℕ
  unfolding lookup image_big_data
  image_big_data_size id key s =
      if str_eq key []
      then (fails invalid_big_data_name, s)
      else with_image (lookup s id)
          (λ r t. elim (GoMap.get (t.heap.cell r).big_data_sizes key) [
            | some size ↦ (ok size, t)
            | none ↦ (measured (image_big_data id key t).0, t)
          ])
          s

  unfoldable pub image_big_data_digest : Str → Str → Exec (ImageStore p) Str
  unfolding lookup
  image_big_data_digest id key s =
      if str_eq key []
      then (fails invalid_big_data_name, s)
      else with_image (lookup s id)
          (λ r t. elim (GoMap.get (t.heap.cell r).big_data_digests key) [
            | some d ↦ (ok d, t)
            | none ↦ (fails digest_unknown, t)
          ])
          s

  unfoldable pub image_big_data_names : Str → Exec (ImageStore p) (List Str)
  unfolding lookup
  image_big_data_names id s =
      with_image (lookup s id) (λ r t. (ok (t.heap.cell r).big_data_names, t)) s

  -- The image has left the table of digests, and returns to it by its new digests; where these are not
  -- valid, it does not return.
  unfoldable pub refile : ℕ → Bool → Option Image → Exec (ImageStore p) (Unit {0})
  unfolding refile_digests
  refile r changed none s = (fails invalid_digest, s)
  refile r changed (some i) s =
      let t = record (modify s r i) { bydigest = refile_digests s.bydigest i.digests r } in
      if changed then save t else (ok tt, t)

  unfoldable pub note_image_data :
      (GoMap Str → List (Str × Str)) → ℕ → Str → Str → Str → Exec (ImageStore p) (Unit {0})
  unfolding refile unfile_digests recompute_digests with_image_data image_data_changes
  note_image_data order r key content d s =
      let noted = with_image_data (s.heap.cell r) key content d in
      refile r (image_data_changes (s.heap.cell r) key content d)
        (recompute_digests p.env order noted)
        (record (modify s r noted) {
          bydigest = unfile_digests s.bydigest (s.heap.cell r).digests r;
        })

  unfoldable pub write_image_data :
      (GoMap Str → List (Str × Str))
      → Str
      → Str
      → ℕ
      → Str
      → Str
      → Option (Str → Option Str)
      → Exec (ImageStore p) (Unit {0})
  unfolding note_image_data item_digest
  write_image_data order dir file r key content f = do
    on_world (p.env.mkdir_all dir)
    d ← (λ t. (item_digest p.env f key content, t))
    on_world (p.env.write_file file content)
    note_image_data order r key content d

  unfoldable pub set_image_big_data :
      (GoMap Str → List (Str × Str))
      → Str
      → Str
      → Str
      → Option (Str → Option Str)
      → Exec (ImageStore p) (Unit {0})
  unfolding lookup write_image_data
  set_image_big_data order id key content f s =
      if str_eq key []
      then (fails invalid_big_data_name, s)
      else when_writable
          (λ t.
            with_image (lookup t id)
              (λ r u.
                write_image_data order (data_dir u (u.heap.cell r).id)
                  (data_path u (u.heap.cell r).id key) r key content f u)
              t)
          s
