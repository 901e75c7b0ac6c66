-- ===== src/Tests/Indexes.antt =====
-- The index of ids at concrete inputs.
use containers_storage.Prelude.{
  ◌≡◌, refl, true, not, ◌||◌, [], ◌∷◌, Str, codes, str_eq, elem, is_prefix, is_some,
}
use containers_storage.Prelude.GoMap
use containers_storage.Prelude.Exec.{ok}
use containers_storage.TruncIndex.{TruncIndex, add_id, delete, get, new_trunc_index}
use containers_storage.TruncIndex.Patricia.{slice_trie, select, add_new}
use containers_storage.TruncIndex.Prefixes.{
  contains, proper, IsValid, new_trunc_index-IsValid, get_sound, get_complete, updates,
}

abbrev two : TruncIndex slice_trie
two = new_trunc_index (codes "ab" ∷ codes "cd" ∷ [])

two-IsValid : IsValid two
two-IsValid = new_trunc_index-IsValid slice_trie (codes "ab" ∷ codes "cd" ∷ [])

two_get : get two (codes "a") ≡ ok (codes "ab")
unfolding get new_trunc_index select add_new str_eq is_prefix elem GoMap.get GoMap.put
two_get = refl

get_sound_example : contains two (codes "ab") ≡ true
get_sound_example = (get_sound two two-IsValid (codes "a") (codes "ab") two_get).0

only_ab : (j : Str) → contains two j ≡ true → is_prefix (codes "a") j ≡ true → j ≡ codes "ab"
only_ab j m p = (get_sound two two-IsValid (codes "a") (codes "ab") two_get).2 j m p

get_complete_example : get two (codes "a") ≡ ok (codes "ab")
unfolding str_eq new_trunc_index is_prefix GoMap.get GoMap.put
get_complete_example = get_complete two two-IsValid (codes "a") (codes "ab") refl refl refl only_ab

updates_example :
    (is_some (add_id two (codes "a b")).0
      ≡ not (proper (codes "a b")) || contains two (codes "a b"))
    × (is_some (delete two (codes "a b")).0 ≡ not (contains two (codes "a b")))
updates_example = (
  (updates two (codes "a b") (codes "ab") two-IsValid).0,
  (updates two (codes "a b") (codes "ab") two-IsValid).1,
)
