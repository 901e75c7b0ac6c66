-- ===== src/Names.antt =====
-- The helpers of store.go on names and keys: dedupeNames, stringSliceWithoutValue and
-- makeBigDataBaseName.
pub mod Dedupe
pub mod BaseName
use containers_storage.Prelude.{
  ℕ, zero, suc, Bool, true, ◌&&◌, ◌||◌, List, [], ◌∷◌, Str, str_eq, is_some, drop, leb, ltb, ◌==◌,
  if◌then◌else◌,
}
use containers_storage.Prelude.GoMap
use containers_storage.Prelude.GoMap.{GoMap}
use containers_storage.Env.{Env}

-- The loop of dedupeNames over `names`, with the map of the names that were seen.
unfoldable pub dedupe_from : GoMap Bool → List Str → List Str
dedupe_from seen [] = []
dedupe_from seen (name ∷ names) =
    let fresh = name ∷ dedupe_from (GoMap.put seen name true) names in
    let rest = dedupe_from seen names in if is_some (GoMap.get seen name) then rest else fresh

unfoldable pub dedupe_names : List Str → List Str
unfolding dedupe_from
dedupe_names names = dedupe_from GoMap.empty names

unfoldable pub without_value : List Str → Str → List Str
without_value [] value = []
without_value (v ∷ slice) value =
    let rest = without_value slice value in if str_eq v value then rest else v ∷ rest

-- A byte that a file name keeps: '.', a digit or a lower-case letter.
abbrev pub is_plain : ℕ → Bool
is_plain c = c == b'.' || (leb b'0' c && leb c b'9') || (leb b'a' c && leb c b'z')

module _ (env : Env) where
  -- What the reader has left after its loop: it stops behind the first rune that is not plain.
  unfoldable pub unread : Str → Str
  unread [] = []
  unread (c ∷ s) =
      let rest = unread s in
      if is_plain c then rest else if ltb c 128 then s else drop (env.rune_size (c ∷ s)) (c ∷ s)

  unfoldable pub big_data_base_name : Str → Str
  unfolding unread
  big_data_base_name key = if str_eq (unread key) [] then key else b'=' ∷ env.base64 key
