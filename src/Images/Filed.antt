-- ===== src/Images/Filed.antt =====
-- The table of digests of images.go: what Create, SetBigData and Delete make of it.
use containers_storage.Prelude.{
  ℕ, zero, suc, ◌<◌, ◌≡◌, refl, ◌⊎◌, inl, inr, true, not, ◌&&◌, Option, none, some, List, [], arith,
  Str, str_eq, elem, holds, ◌==◌, if◌then◌else◌, Bool-cases, Option-cases, is_some, sym, ap, subst,
}
use containers_storage.Prelude.GoMap
use containers_storage.Prelude.GoMap.{GoMap}
use containers_storage.Prelude.Exec.{
  invalid_digest, Result, ok, fails, panics, diverges, Exec, continue, continue_keeps,
}
use containers_storage.Images.{Image, ImageStore, ImagePlatform, save, lookup, modify, on_world}
use containers_storage.Images.Digests.{refile_digests, unfile_digests, recompute_digests}
use containers_storage.Images.Filing.{
  leads, holds-append, leads-file_digests, leads-unfile_digests, leads-refile_digests,
}
use containers_storage.StringId.{generate_id}
use containers_storage.Names.{dedupe_names}
use containers_storage.Containers.Create.{any_in_use}
use containers_storage.Images.Create.{
  fresh_image_id, choose_image_id, enter_image, add_image, create_image, create_image_at,
}
use containers_storage.Images.Delete.{forget_image, delete_image_at, delete_image}
use containers_storage.Images.BigData.{
  item_digest, with_image_data, image_data_changes, write_image_data, set_image_big_data, refile,
  note_image_data,
}

-- The table of digests leads from a digest to the listed images that have it, and to no other.
pub record Filed {p : ImagePlatform} (s : ImageStore p) : Type 0 where
  pub filed :
      (d : Str) (r : ℕ) → leads s.bydigest d r ≡ holds r s.images && elem d (s.heap.cell r).digests
  pub allocated : (r : ℕ) → holds r s.images ≡ true → r < s.heap.next

module _ {p : ImagePlatform} where
  pub enter_image-Filed : (i : Image) (s : ImageStore p) → Filed s → Filed (enter_image i s)
  unfolding enter_image
  enter_image-Filed i s v = record {
    filed = λ d r. ground (
      arith,
      v.filed d r,
      v.allocated r,
      leads-file_digests s.bydigest i.digests s.heap.next d r,
      holds-append r s.heap.next s.images,
    );
    allocated = λ r h. ground (arith, v.allocated r, holds-append r s.heap.next s.images);
  }

  -- After Delete's change of the tables no digest leads to the image; to the others they lead as before.
  pub leads-forget_image :
      (r : ℕ) (s : ImageStore p)
      → Filed s
      → (d : Str) (q : ℕ)
      → leads (forget_image r s).bydigest d q ≡ leads s.bydigest d q && not (r == q)
  unfolding forget_image
  leads-forget_image r s v d q =
      ground (arith, v.filed d q, leads-unfile_digests s.bydigest (s.heap.cell r).digests r d q)

  -- The entries of an image whose record gets the digests `ds`.
  refiled-Filed :
      (r : ℕ) (ds : List Str) (s t : ImageStore p)
      → Filed s
      → holds r s.images ≡ true
      → t.images ≡ s.images
      → t.heap.next ≡ s.heap.next
      → ((q : ℕ) → (t.heap.cell q).digests ≡ (if r == q then ds else (s.heap.cell q).digests))
      → t.bydigest ≡ refile_digests (unfile_digests s.bydigest (s.heap.cell r).digests r) ds r
      → Filed t
  refiled-Filed r ds s t v live images next cells table = record {
    filed = λ d q.
        rw (images, cells q, table)
          (ground (
            arith,
            v.filed d q,
            leads-refile_digests (unfile_digests s.bydigest (s.heap.cell r).digests r) ds r d q,
            leads-unfile_digests s.bydigest (s.heap.cell r).digests r d q,
          ));
    allocated = λ q h. rw next (v.allocated q (rw (sym images) h));
  }

  Filed-world : (s : ImageStore p) (w : p.env.World) → Filed s → Filed (record s { world = w })
  Filed-world s w v = record { filed = v.filed; allocated = v.allocated }

  save_world : (s : ImageStore p) → (save s).1 ≡ record s { world = (save s).1.world }
  unfolding save
  save_world s = ground arith

  pub save-Filed : (s : ImageStore p) → Filed s → Filed (save s).1
  save-Filed s v = subst Filed (sym (save_world s)) (Filed-world s (save s).1.world v)

  -- An action that keeps the table right unless it meets a digest that is not valid.
  abbrev pub Kept : {A : Type 0} → Result A × ImageStore p → Type 0
  Kept (r, t) = (r ≡ fails invalid_digest) ⊎ Filed t

  continue-Kept :
      {A B : Type 0} (r : Result A) (f : A → Exec (ImageStore p) B) (s : ImageStore p)
      → Filed s
      → ((a : A) → Kept (f a s))
      → Kept (continue r f s)
  continue-Kept (ok a) f s v k = k a
  continue-Kept (fails e) f s v k = inr v
  continue-Kept panics f s v k = inr v
  continue-Kept diverges f s v k = inr v

  note_image_data-Kept :
      (order : GoMap Str → List (Str × Str)) (r : ℕ) (key content d : Str) (s : ImageStore p)
      → Filed s
      → holds r s.images ≡ true
      → Kept (note_image_data order r key content d s)
  unfolding note_image_data refile with_image_data
  note_image_data-Kept order r key content d s v live =
      elim (Option-cases
        (recompute_digests p.env order (with_image_data (s.heap.cell r) key content d))) [
          | inl e ↦ inl (rw e refl)
          | inr (i, e) ↦
              let noted = with_image_data (s.heap.cell r) key content d in
              let out = record (modify s r noted) {
                bydigest = unfile_digests s.bydigest (s.heap.cell r).digests r;
              } in
              let t : ImageStore p = record (modify out r i) {
                bydigest = refile_digests out.bydigest i.digests r;
              } in
              let v' : Filed t =
                refiled-Filed r i.digests s t v live refl refl (λ q. ground arith) refl in
              inr (elim (Bool-cases (image_data_changes (s.heap.cell r) key content d)) [
                | inl c ↦ rw (e, c) (save-Filed t v')
                | inr c ↦ rw (e, c) v'
              ])
        ]

  write_image_data-Kept :
      (order : GoMap Str → List (Str × Str)) (dir file : Str) (r : ℕ) (key content : Str)
      (f : Option (Str → Option Str)) (s : ImageStore p)
      → Filed s
      → holds r s.images ≡ true
      → Kept (write_image_data order dir file r key content f s)
  unfolding write_image_data
  write_image_data-Kept order dir file r key content f s v live =
      let s1 : ImageStore p = (on_world (p.env.mkdir_all dir) s).1 in
      let s2 : ImageStore p = (on_world (p.env.write_file file content) s1).1 in
      let v2 : Filed s2 = Filed-world s s2.world v in
      continue-Kept (p.env.mkdir_all dir s.world).0 _ s1 (Filed-world s s1.world v) (λ _.
        continue-Kept (item_digest p.env f key content) _ s1 (Filed-world s s1.world v) (λ d.
          continue-Kept (p.env.write_file file content s1.world).0 _ s2 v2
            (λ _. note_image_data-Kept order r key content d s2 v2 live)))

  -- Where the table of digests leads to the images that have them, SetBigData of an image that is found
  -- and listed keeps it so, unless it fails with a digest that is not valid.
  pub set_image_big_data-Kept :
      (order : GoMap Str → List (Str × Str)) (id key content : Str) (f : Option (Str → Option Str))
      (s : ImageStore p) (r : ℕ)
      → Filed s
      → lookup s id ≡ some r
      → holds r s.images ≡ true
      → Kept (set_image_big_data order id key content f s)
  unfolding set_image_big_data
  set_image_big_data-Kept order id key content f s r v found live =
      elim (Bool-cases (str_eq key [])) [
        | inl e ↦ rw e (inr v)
        | inr e ↦ elim (Bool-cases (p.env.read_write s.world)) [
          | inl w ↦ rw (e, w, found) (write_image_data-Kept order _ _ r key content f s v live)
          | inr w ↦ rw (e, w) (inr v)
        ]
      ]

  -- Where the table of digests leads to the images that have them, and the store may be written, after
  -- Delete of an image that is found no digest leads to it, and to the others they lead as before,
  -- whatever the call returns.
  pub leads-delete_image :
      (id : Str) (s : ImageStore p) (r : ℕ)
      → Filed s
      → p.env.read_write s.world ≡ true
      → lookup s id ≡ some r
      → (d : Str) (q : ℕ)
      → leads (delete_image id s).1.bydigest d q ≡ leads s.bydigest d q && not (r == q)
  unfolding delete_image delete_image_at
  leads-delete_image id s r v writable found d q =
      rw (writable, found)
        (ground (
          arith,
          leads-forget_image r s v d q,
          ap (λ (u : ImageStore p). u.bydigest) (save_world (forget_image r s)),
        ))

  add_image-Filed : (i : Option Image) (s : ImageStore p) → Filed s → Filed (add_image i s).1
  unfolding add_image
  add_image-Filed none s v = v
  add_image-Filed (some i) s v = save-Filed (enter_image i s) (enter_image-Filed i s v)

  create_image_at-Filed :
      (id : Str) (names : List Str) (layer metadata : Str) (created : ℕ) (digest : Str)
      (s : ImageStore p)
      → Filed s
      → Filed (create_image_at id names layer metadata created digest s).1
  unfolding create_image_at
  create_image_at-Filed id names layer metadata created digest s v =
      elim (Bool-cases (is_some (GoMap.get s.byid id))) [
        | inl used ↦ rw used v
        | inr unused ↦ elim (Bool-cases (any_in_use s.byname (dedupe_names names))) [
          | inl taken ↦ rw (unused, taken) v
          | inr free ↦ rw (unused, free) (add_image-Filed _ s v)
        ]
      ]

  fresh_image_id-Filed :
      (draws fuel : ℕ) (s : ImageStore p) → Filed s → Filed (fresh_image_id draws fuel s).1
  unfolding fresh_image_id
  fresh_image_id-Filed draws zero s v = v
  fresh_image_id-Filed draws (suc fuel) s v =
      let t : ImageStore p = (on_world (generate_id p.env.random draws) s).1 in
      let w : Filed t = Filed-world s t.world v in
      ground (arith, w, fresh_image_id-Filed draws fuel t w)

  -- Create keeps the table of digests leading to the images that have them, whatever it returns.
  pub create_image-Filed :
      (draws fuel : ℕ) (id : Str) (names : List Str) (layer metadata : Str) (created : ℕ)
      (digest : Str) (s : ImageStore p)
      → Filed s
      → Filed (create_image draws fuel id names layer metadata created digest s).1
  unfolding create_image choose_image_id
  create_image-Filed draws fuel id names layer metadata created digest s v =
      elim (Bool-cases (p.env.read_write s.world)) [
        | inr w ↦ rw w v
        | inl w ↦ elim (Bool-cases (str_eq id [])) [
          | inr given ↦
              rw (w, given) (create_image_at-Filed id names layer metadata created digest s v)
          | inl empty ↦
              let fresh = fresh_image_id-Filed draws fuel s v in
              rw (w, empty)
                (continue_keeps Filed (fresh_image_id draws fuel s).0 _ _ fresh (λ chosen _.
                  create_image_at-Filed chosen names layer metadata created digest _ fresh))
        ]
      ]
