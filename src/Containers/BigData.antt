-- ===== src/Containers/BigData.antt =====
-- The big data items of containers.go: files beside the record, with their sizes and digests in it.
use containers_storage.Prelude.{
  ℕ, Bool, true, not, ◌||◌, Option, none, some, [], ◌∷◌, ◌++◌, Str, str_eq, elem, length, ◌==◌,
  if◌then◌else◌,
}
use containers_storage.Prelude.GoMap
use containers_storage.Prelude.GoMap.{GoMap}
use containers_storage.Prelude.Exec.{
  Error, container_unknown, invalid_big_data_name, size_unknown, digest_unknown, os_error, Result,
  ok, fails, Exec, or_fail, ◌>>◌,
}
use containers_storage.Env.{FileRead, contents, missing, unreadable}
use containers_storage.Containers.{
  Container, ContainerStore, Platform, on_world, modify, save, lookup, data_dir, data_path,
}

abbrev pub file_result : FileRead → Result Str
file_result (contents d) = ok d
file_result missing = fails os_error
file_result unreadable = fails os_error

-- old, ok := m[key]; !ok || old != new
abbrev pub number_differs : Option ℕ → ℕ → Bool
number_differs none n = true
number_differs (some m) n = not (m == n)

abbrev pub digest_differs : Option Str → Str → Bool
digest_differs none d = true
digest_differs (some e) d = not (str_eq e d)

-- The record of an item that was written.
abbrev pub with_big_data : Container → Str → Str → Str → Container
with_big_data c key content new_digest = record c {
  big_data_sizes = GoMap.put c.big_data_sizes key (length content);
  big_data_digests = GoMap.put c.big_data_digests key new_digest;
  big_data_names =
      if elem key c.big_data_names then c.big_data_names else c.big_data_names ++ key ∷ [];
}

abbrev pub item_changes : Container → Str → Str → Str → Bool
item_changes c key content new_digest =
    number_differs (GoMap.get c.big_data_sizes key) (length content)
    || digest_differs (GoMap.get c.big_data_digests key) new_digest
    || not (elem key c.big_data_names)

module _ {p : Platform} where
  unfoldable pub big_data : Str → Str → Exec (ContainerStore p) Str
  big_data id key s =
      if str_eq key [] then (fails invalid_big_data_name, s) else elim (lookup s id) [
        | none ↦ (fails container_unknown, s)
        | some r ↦ (file_result (p.env.read_file s.world (data_path s (s.heap.cell r).id key)), s)
      ]

  unfoldable pub note_big_data : ℕ → Str → Str → Exec (ContainerStore p) (Unit {0})
  note_big_data r key content s =
      if item_changes (s.heap.cell r) key content (p.env.digest_of content)
      then save (modify s r (with_big_data (s.heap.cell r) key content (p.env.digest_of content)))
      else (ok tt, modify s r (with_big_data (s.heap.cell r) key content (p.env.digest_of content)))

  -- The item is written to `file` under the directory `dir`, and noted in the record.
  unfoldable pub write_item : Str → Str → ℕ → Str → Str → Exec (ContainerStore p) (Unit {0})
  unfolding note_big_data
  write_item dir file r key content = do
    on_world (p.env.mkdir_all dir)
    on_world (p.env.write_file file content)
    note_big_data r key content

  unfoldable pub set_big_data : Str → Str → Str → Exec (ContainerStore p) (Unit {0})
  unfolding write_item
  set_big_data id key content s =
      if str_eq key [] then (fails invalid_big_data_name, s) else elim (lookup s id) [
        | none ↦ (fails container_unknown, s)
        | some r ↦
            write_item (data_dir s (s.heap.cell r).id) (data_path s (s.heap.cell r).id key) r key
              content s
      ]

  -- The entry of the container that is looked up after its item was read and stored again.
  abbrev pub recorded :
      {A : Type 0} → (Container → GoMap A) → Error → Str → Str → Exec (ContainerStore p) A
  recorded entries unknown id key s = elim (lookup s id) [
    | none ↦ (fails container_unknown, s)
    | some r ↦ or_fail (GoMap.get (entries (s.heap.cell r)) key) unknown s
  ]

  -- The item's file is read, and stored again to note its size and digest; a file that cannot be read
  -- leaves the entry unknown.
  unfoldable pub remeasure :
      {A : Type 0}
      → (Container → GoMap A)
      → Error
      → Str
      → Str
      → Result Str
      → Exec (ContainerStore p) A
  unfolding set_big_data
  remeasure entries unknown id key (ok content) s =
      (do set_big_data id key content; recorded entries unknown id key) s
  remeasure entries unknown id key _ s = (fails unknown, s)

  -- BigDataSize and BigDataDigest look an entry up alike.
  unfoldable pub big_data_entry :
      {A : Type 0} → (Container → GoMap A) → Error → Str → Str → Exec (ContainerStore p) A
  unfolding big_data remeasure
  big_data_entry entries unknown id key s =
      if str_eq key [] then (fails invalid_big_data_name, s) else elim (lookup s id) [
        | none ↦ (fails container_unknown, s)
        | some r ↦ elim (GoMap.get (entries (s.heap.cell r)) key) [
          | some entry ↦ (ok entry, s)
          | none ↦ remeasure entries unknown id key (big_data id key s).0 s
        ]
      ]

  unfoldable pub big_data_size : Str → Str → Exec (ContainerStore p) ℕ
  unfolding big_data_entry
  big_data_size = big_data_entry (λ c. c.big_data_sizes) size_unknown

  unfoldable pub big_data_digest : Str → Str → Exec (ContainerStore p) Str
  unfolding big_data_entry
  big_data_digest = big_data_entry (λ c. c.big_data_digests) digest_unknown
