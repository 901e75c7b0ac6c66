-- ===== src/Tests/Containers.antt =====
-- The container store at concrete inputs.
use containers_storage.Prelude.{
  ◌≡◌, refl, true, false, none, some, List, [], ◌∷◌, Str, codes, str_eq, elem, distinct, holds,
  if◌then◌else◌, ◌⊎◌,
}
use containers_storage.Prelude.GoMap
use containers_storage.Prelude.Exec.{WhereTrue, ok}
use containers_storage.Names.{dedupe_names}
use containers_storage.Containers.{Container, ContainerStore, bool, save, lookup}
use containers_storage.Containers.Create.{create, new_container}
use containers_storage.Containers.Delete.{delete, wipe}
use containers_storage.Containers.Changes.{set_names}
use containers_storage.Containers.Load.{rebuild}
use containers_storage.Containers.Lookup.{OnlyWithPrefix, lookup_sound, lookup_complete}
use containers_storage.Containers.Entries.{Added, Asked, create-Added}
use containers_storage.Containers.Removal.{Removed, delete-Removed, wipe_empties, set_names_moves}
use containers_storage.Containers.Invariant.{Inv}
use containers_storage.Containers.Invariant.Alloc.{names_distinct}
use containers_storage.Containers.Invariant.Rebuild.{rebuild-Inv}
use containers_storage.Containers.Invariant.Create.{create-Inv}
use containers_storage.Containers.Invariant.Reachable.{
  Decodes, Intact, LoadsIntact, RunIntact, Call, creates, deletes, renames, loads, reloads, run,
  run-Inv,
}
use containers_storage.Tests.Platforms.{demo, disk, empty_on, no_container, no_options, empty_store}

abbrev web : List Str
web = codes "web" ∷ codes "www" ∷ codes "web" ∷ []

-- Two records on disk that both claim the name "web".
abbrev clashing : List Container
clashing =
    record no_container { id = codes "ab1"; names = codes "web" ∷ []; layer_id = codes "l1" }
    ∷ record no_container {
      id = codes "ab2";
      names = codes "web" ∷ codes "db" ∷ [];
      layer_id = codes "l2";
    }
    ∷ []

rebuild-Inv_example : Inv (rebuild empty_store clashing).0
unfolding distinct elem str_eq names_distinct
rebuild-Inv_example = rebuild-Inv empty_store clashing refl refl

abbrev loaded : ContainerStore demo
loaded = (rebuild empty_store clashing).0

-- A run on a disk with those two records that reads them back, after a Delete and twice over.
abbrev disk_calls : List Call
disk_calls =
    creates 3 3 [] web (codes "img") (codes "lay") [] no_options
    ∷ loads
    ∷ renames (codes "web") (codes "db" ∷ [])
    ∷ deletes (codes "ab2")
    ∷ reloads
    ∷ []

disk-Decodes : Decodes ((disk clashing).unmarshal (codes "two"))
unfolding distinct names_distinct elem str_eq
disk-Decodes = (refl, refl, λ e. cc)

run-Inv_example : Inv (run (empty_on clashing) disk_calls)
unfolding RunIntact LoadsIntact WhereTrue Intact distinct names_distinct elem str_eq rebuild
run-Inv_example =
    run-Inv (empty_on clashing) disk_calls (tt, (disk-Decodes, (tt, (tt, (disk-Decodes, tt)))))
      (rebuild-Inv (empty_on clashing) [] refl refl)

abbrev made : Container
made =
    new_container (codes "a1") (codes "web" ∷ codes "www" ∷ []) (codes "img") (codes "lay") []
      no_options (GoMap.put GoMap.empty (codes "Volatile") (bool true)) 0

made_created :
    (create 3 3 (codes "a1") web (codes "img") (codes "lay") [] no_options empty_store).0 ≡ ok made
unfolding create dedupe_names str_eq GoMap.get GoMap.put save
made_created = refl

create-Added_example :
    (str_eq (codes "a1") [] ≡ false → made.id ≡ codes "a1")
    × Asked web (codes "img") (codes "lay") [] made
    × Added made empty_store
        (create 3 3 (codes "a1") web (codes "img") (codes "lay") [] no_options empty_store).1
create-Added_example =
    create-Added 3 3 (codes "a1") web (codes "img") (codes "lay") [] no_options empty_store made
      made_created

-- The store with that container, and its agreement.
abbrev one : ContainerStore demo
one = (create 3 3 (codes "a1") web (codes "img") (codes "lay") [] no_options empty_store).1

empty_store-Inv : Inv empty_store
unfolding rebuild distinct names_distinct
empty_store-Inv = rebuild-Inv empty_store [] refl refl

one-Inv : Inv one
one-Inv =
    create-Inv 3 3 (codes "a1") web (codes "img") (codes "lay") [] no_options empty_store
      empty_store-Inv

one-lookup : lookup one (codes "www") ≡ some 0
unfolding lookup create dedupe_names str_eq GoMap.get GoMap.put save
one-lookup = refl

delete-Removed_example : Removed 0 one (delete (codes "www") one).1
delete-Removed_example = delete-Removed (codes "www") one 0 one-Inv one-lookup

set_names_moves_example :
    (GoMap.get (set_names (codes "www") (codes "db" ∷ []) one).1.byname (codes "db") ≡ (
      if elem (codes "db") (codes "db" ∷ [])
      then some 0
      else if elem (codes "db") (one.heap.cell 0).names
      then none
      else GoMap.get one.byname (codes "db")))
    × (((set_names (codes "www") (codes "db" ∷ []) one).1.heap.cell 0).names
        ≡ dedupe_names (codes "db" ∷ []))
set_names_moves_example =
    set_names_moves (codes "www") (codes "db" ∷ []) one 0 (codes "db") one-Inv one-lookup

wipe_empties_example : (wipe (λ ks. ks) one).1.containers ≡ []
unfolding create dedupe_names str_eq GoMap.get GoMap.put GoMap.keys save distinct elem wipe delete
    lookup
wipe_empties_example = (wipe_empties (λ ks. ks) one one-Inv (λ k. refl) refl refl).0

lookup_sound_example :
    (holds 0 one.containers ≡ true)
    × (((one.heap.cell 0).id ≡ codes "www")
        ⊎ (elem (codes "www") (one.heap.cell 0).names ≡ true)
        ⊎ ((one.heap.cell 0).layer_id ≡ codes "www")
        ⊎ OnlyWithPrefix one (codes "www") 0)
lookup_sound_example = lookup_sound one one-Inv (codes "www") 0 one-lookup

lookup_complete_example : lookup one (one.heap.cell 0).id ≡ some 0
unfolding create dedupe_names str_eq GoMap.get GoMap.put save holds
lookup_complete_example = (lookup_complete one one-Inv 0 refl).0
