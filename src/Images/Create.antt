-- ===== src/Images/Create.antt =====
-- imageStore.Create of images.go.
use containers_storage.Prelude.{
  ℕ, zero, suc, false, Option, none, some, List, [], ◌∷◌, ◌++◌, Str, str_eq, is_some, ◌==◌,
  if◌then◌else◌,
}
use containers_storage.Prelude.GoMap
use containers_storage.Prelude.GoMap.{GoMap}
use containers_storage.Prelude.Heap.{alloc}
use containers_storage.Prelude.Exec.{
  duplicate_id, duplicate_name, invalid_digest, ok, fails, panics, diverges, Exec, ◌>>=◌,
}
use containers_storage.StringId.{generate_id}
use containers_storage.Names.{dedupe_names}
use containers_storage.Containers.Create.{any_in_use, name_all}
use containers_storage.Images.{Image, ImageStore, ImagePlatform, on_world, when_writable, save}
use containers_storage.Images.Digests.{recompute_digests, file_digests}

unfoldable pub new_image : Str → List Str → Str → Str → ℕ → Str → Image
new_image id names layer metadata created digest = record {
  id = id;
  digest = digest;
  digests = [];
  names = names;
  names_history = [];
  top_layer = layer;
  mapped_top_layers = [];
  metadata = metadata;
  big_data_names = [];
  big_data_sizes = GoMap.empty;
  big_data_digests = GoMap.empty;
  created = created;
  read_only = false;
  flags = GoMap.empty;
}

module _ {p : ImagePlatform} where
  -- The loop that draws ids until one is not in use; its rounds, and those of each draw, are bounded.
  unfoldable pub fresh_image_id : ℕ → ℕ → Exec (ImageStore p) Str
  fresh_image_id draws zero s = (diverges, s)
  fresh_image_id draws (suc fuel) s =
      let (r, t) = on_world (generate_id p.env.random draws) s in
      elim r [
        | ok id ↦
            let again = fresh_image_id draws fuel t in
            if is_some (GoMap.get t.byid id) then again else (ok id, t)
        | fails e ↦ (fails e, t)
        | panics ↦ (panics, t)
        | diverges ↦ (diverges, t)
      ]

  unfoldable pub choose_image_id : ℕ → ℕ → Str → Exec (ImageStore p) Str
  unfolding fresh_image_id
  choose_image_id draws fuel id s = if str_eq id [] then fresh_image_id draws fuel s else (ok id, s)

  -- The image is entered into every table.
  unfoldable pub enter_image : Image → ImageStore p → ImageStore p
  unfolding name_all file_digests
  enter_image i s = record s {
    heap = alloc s.heap i;
    images = s.images ++ s.heap.next ∷ [];
    byid = GoMap.put s.byid i.id s.heap.next;
    idindex = (p.index.add s.idindex i.id).1;
    byname = name_all s.byname i.names s.heap.next;
    bydigest = file_digests s.bydigest i.digests s.heap.next;
  }

  -- The error of Save is kept in an `err` of the inner block, which shadows the result.
  unfoldable pub add_image : Option Image → Exec (ImageStore p) Image
  unfolding enter_image
  add_image none s = (fails invalid_digest, s)
  add_image (some i) s = (ok i, (save (enter_image i s)).1)

  abbrev pub created_at : ℕ → ImageStore p → ℕ
  created_at created s = if created == 0 then p.env.now s.world else created

  unfoldable pub create_image_at : Str → List Str → Str → Str → ℕ → Str → Exec (ImageStore p) Image
  unfolding any_in_use add_image new_image recompute_digests
  create_image_at id names layer metadata created digest s =
      if is_some (GoMap.get s.byid id)
      then (fails duplicate_id, s)
      else if any_in_use s.byname (dedupe_names names)
      then (fails duplicate_name, s)
      else add_image
          (recompute_digests p.env (λ entries. entries)
            (new_image id (dedupe_names names) layer metadata (created_at created s) digest))
          s

  unfoldable pub create_image :
      ℕ → ℕ → Str → List Str → Str → Str → ℕ → Str → Exec (ImageStore p) Image
  unfolding choose_image_id create_image_at
  create_image draws fuel id names layer metadata created digest s =
      when_writable
        (do
          chosen ← choose_image_id draws fuel id
          create_image_at chosen names layer metadata created digest)
        s
