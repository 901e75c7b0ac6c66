-- ===== src/StringUtils.antt =====
-- pkg/stringutils/stringutils.go: InSlice and RemoveFromSlice. strings.EqualFold is a parameter.
use containers_storage.Prelude.{Bool, true, false, List, [], ◌∷◌, Str, if◌then◌else◌}

module _ (equal_fold : Str → Str → Bool) where
  unfoldable pub in_slice : List Str → Str → Bool
  in_slice [] s = false
  in_slice (ss ∷ slice) s = let rest = in_slice slice s in if equal_fold s ss then true else rest

  unfoldable pub remove_from_slice : List Str → Str → List Str
  remove_from_slice [] s = []
  remove_from_slice (ss ∷ slice) s =
      let rest = remove_from_slice slice s in if equal_fold s ss then rest else ss ∷ rest
