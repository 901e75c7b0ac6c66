-- ===== src/TruncIndex.antt =====
-- pkg/truncindex/truncindex.go: identifiers found by any unambiguous prefix. The mutex is left out:
-- each method runs under it as a whole.
pub mod Patricia
pub mod Prefixes
pub mod Interface
use Patricia.{Trie}
use containers_storage.Prelude.{
  ◌≡◌, Bool, true, false, not, ◌||◌, List, [], ◌∷◌, Option, none, some, Str, str_eq, is_some,
  if◌then◌else◌, ◌==◌,
}
use containers_storage.Prelude.GoMap
use containers_storage.Prelude.GoMap.{GoMap}
use containers_storage.Prelude.Exec.{
  Error, illegal_char, empty_prefix, already_exists, ambiguous_prefix, not_exist, no_such_id,
  Result, ok, fails,
}

-- strings.Contains(id, " ")
unfoldable pub has_space : Str → Bool
has_space [] = false
has_space (c ∷ s) = c == b' ' || has_space s

module _ (trie : Trie) where
  pub record TruncIndex : Type 0 where
    pub tree : trie.Tree
    pub ids : GoMap (Unit {0})

module _ {trie : Trie} where
  unfoldable pub add_id : TruncIndex trie → Str → Option Error × TruncIndex trie
  unfolding has_space
  add_id idx id =
      if has_space id
      then (some illegal_char, idx)
      else if str_eq id []
      then (some empty_prefix, idx)
      else if is_some (GoMap.get idx.ids id)
      then (some already_exists, idx)
      else (
        if (trie.insert idx.tree id).1 then none else some already_exists,
        record { tree = (trie.insert idx.tree id).0; ids = GoMap.put idx.ids id tt },
      )

  unfoldable pub add_all : TruncIndex trie → List Str → TruncIndex trie
  unfolding add_id
  add_all idx [] = idx
  add_all idx (id ∷ ids) = add_all (add_id idx id).1 ids

  unfoldable pub new_trunc_index : List Str → TruncIndex trie
  unfolding add_all
  new_trunc_index ids = add_all (record { tree = trie.new; ids = GoMap.empty }) ids

  unfoldable pub delete : TruncIndex trie → Str → Option Error × TruncIndex trie
  delete idx id =
      if not (is_some (GoMap.get idx.ids id)) || str_eq id [] then (some no_such_id, idx) else (
        if (trie.remove idx.tree id).1 then none else some no_such_id,
        record { tree = (trie.remove idx.tree id).0; ids = GoMap.del idx.ids id },
      )

-- The visitor of `Get` over the keys that VisitSubtree passes to it: it stops at the second key.
unfoldable pub visit : Str → List Str → Result Str
visit id [] = ok id
visit id (k ∷ ks) = let rest = visit k ks in if str_eq id [] then rest else fails ambiguous_prefix

unfoldable pub found : Result Str → Result Str
found (ok id) = if str_eq id [] then fails not_exist else ok id
found r = r

module _ {trie : Trie} where
  unfoldable pub get : TruncIndex trie → Str → Result Str
  unfolding visit found
  get idx s = if str_eq s [] then fails empty_prefix else found (visit [] (trie.below idx.tree s))
