-- ===== src/TruncIndex/Interface.antt =====
-- What the image, container and layer stores rely on when they resolve an abbreviated id, and
-- truncindex.go as an implementation of it.
use containers_storage.Prelude.{
  ◌≡◌, Bool, true, false, ◌&&◌, ◌||◌, List, [], Option, Str, str_eq, elem, is_prefix, if◌then◌else◌,
}
use containers_storage.Prelude.Exec.{Error, Result, ok}
use containers_storage.TruncIndex
use containers_storage.TruncIndex.{TruncIndex}
use containers_storage.TruncIndex.Patricia.{Trie}
use containers_storage.TruncIndex.Prefixes

pub record IdIndex : Type 1 where
  pub Index : Type 0
  pub build : List Str → Index
  pub add : Index → Str → Option Error × Index
  pub delete : Index → Str → Option Error × Index
  pub get : Index → Str → Result Str
  pub IsValid : Index → Type 0
  pub contains : Index → Str → Bool
  pub build-IsValid : (ids : List Str) → IsValid (build ids)
  pub add-IsValid : (t : Index) (id : Str) → IsValid t → IsValid (add t id).1
  pub delete-IsValid : (t : Index) (id : Str) → IsValid t → IsValid (delete t id).1
  pub contains-build :
      (ids : List Str) (k : Str) → contains (build ids) k ≡ Prefixes.proper k && elem k ids
  pub contains-add :
      (t : Index) (id k : Str)
      → contains (add t id).1 k ≡ (Prefixes.proper id && str_eq id k) || contains t k
  pub contains-delete :
      (t : Index) (id k : Str)
      → IsValid t
      → contains (delete t id).1 k ≡ (if str_eq id k then false else contains t k)
  pub get_sound :
      (t : Index)
      → IsValid t
      → (s k : Str) → get t s ≡ ok k
      → (contains t k ≡ true)
        × (is_prefix s k ≡ true)
        × ((j : Str) → contains t j ≡ true → is_prefix s j ≡ true → j ≡ k)
  pub get_complete :
      (t : Index)
      → IsValid t
      → (s k : Str) → str_eq s [] ≡ false
      → contains t k ≡ true
      → is_prefix s k ≡ true
      → ((j : Str) → contains t j ≡ true → is_prefix s j ≡ true → j ≡ k)
      → get t s ≡ ok k

abbrev pub trunc_index : Trie → IdIndex
trunc_index trie = record {
  Index = TruncIndex trie;
  build = TruncIndex.new_trunc_index;
  add = TruncIndex.add_id;
  delete = TruncIndex.delete;
  get = TruncIndex.get;
  IsValid = λ t. Prefixes.IsValid t;
  contains = λ t. Prefixes.contains t;
  build-IsValid = Prefixes.new_trunc_index-IsValid trie;
  add-IsValid = Prefixes.add_id-IsValid;
  delete-IsValid = Prefixes.delete-IsValid;
  contains-build = Prefixes.contains-new_trunc_index trie;
  contains-add = Prefixes.contains-add_id;
  contains-delete = Prefixes.contains-delete;
  get_sound = Prefixes.get_sound;
  get_complete = Prefixes.get_complete;
}
