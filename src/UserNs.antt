-- ===== src/UserNs.antt =====
-- userns.go: the size and the mappings of automatic user namespaces. What the parsers of passwd and
-- group files return, and the ids that the user may have, are arguments.
pub mod Size
use containers_storage.Prelude.{
  ℕ, ◌%◌, ◌^◌, Bool, ◌&&◌, Option, none, some, List, [], ◌∷◌, ◌++◌, Str, codes, str_eq, ltb,
  if◌then◌else◌,
}
use containers_storage.Prelude.Int.{ℤ, pos, add_int, ltb_ℤ, pos_part}
use containers_storage.Prelude.Exec.{Result, unavailable, ok, fails, panics, diverges}
use containers_storage.Env.{Env}
use containers_storage.IdTools.{IdMap}
use containers_storage.IdSet.{
  IntervalSets, new_id_set, get_host_ids, get_container_ids, subtract, size_of, find_available, zip,
}

-- The fields of an entry of a passwd file, and of a group file, that are read.
pub record User : Type 0 where
  pub user_name : Str
  pub user_uid : ℤ
  pub user_gid : ℤ

pub record Group : Type 0 where
  pub group_name : Str
  pub group_gid : ℤ

abbrev pub raise : ℤ → ℤ → ℤ
raise size id = if ltb_ℤ size id then id else size

unfoldable pub largest_user : ℤ → List User → ℤ
largest_user size [] = size
largest_user size (u ∷ us) =
    largest_user
      (if str_eq u.user_name (codes "nobody")
        then size
        else raise (raise size u.user_uid) u.user_gid)
      us

unfoldable pub largest_group : ℤ → List Group → ℤ
largest_group size [] = size
largest_group size (g ∷ gs) =
    largest_group (if str_eq g.group_name (codes "nobody") then size else raise size g.group_gid) gs

abbrev pub or_none : {A : Type 0} → Option (List A) → List A
or_none none = []
or_none (some l) = l

-- uint32(size)
abbrev pub to_uint32 : ℤ → ℕ
to_uint32 size = pos_part size % 2 ^ 32

-- `users` and `groups` stand for the parsers, with `none` for an error. The path of the group file is
-- joined to itself, empty as it is there.
unfoldable pub parse_mounted_files :
    Env → (Str → Option (List User)) → (Str → Option (List Group)) → Str → Str → Str → ℕ
unfolding largest_user largest_group
parse_mounted_files env users groups mount passwd_file group_file =
    let passwd =
      if str_eq passwd_file [] then env.join mount (codes "etc/passwd") else passwd_file in
    let group =
      if str_eq group_file [] then env.join group_file (codes "etc/group") else group_file in
    to_uint32
      (largest_group (largest_user (pos 0) (or_none (users passwd))) (or_none (groups group)))

-- size > max, with a maximum set
abbrev pub at_most : ℕ → ℕ → Result ℕ
at_most max size = if ltb 0 max && ltb max size then fails unavailable else ok size

abbrev pub or_larger : ℕ → ℕ → ℕ
or_larger a b = if ltb a b then b else a

-- The size that getAutoUserNS chooses: what was asked for, or else the largest of the initial size, the
-- minimum of the store and what the image needs. `from_image` is `none` without an image; it is asked
-- only where no size was.
unfoldable pub auto_size : ℕ → ℕ → ℕ → ℕ → Option (Result ℕ) → Result ℕ
auto_size requested initial min max from_image =
    let start = or_larger (if ltb 0 initial then initial else 1) min in
    if ltb 0 requested then ok requested else elim from_image [
      | none ↦ at_most max start
      | some r ↦ elim r [
        | ok needed ↦ at_most max (or_larger start needed)
        | fails e ↦ fails e
        | panics ↦ panics
        | diverges ↦ diverges
      ]
    ]

module _ (sets : IntervalSets) where
  -- What the store has found, and what of it a user namespace sees: ids from 1 where the process is
  -- itself in one.
  unfoldable pub inner_ids : Bool → Option sets.Set → Option sets.Set
  unfolding new_id_set size_of
  inner_ids rootless ids =
      if rootless
      then new_id_set sets (record { start = pos 1; end = add_int (size_of sets ids) (pos 1) } ∷ [])
      else ids

  -- The mappings of one kind of id; `none` is the error.
  unfoldable pub auto_mappings : ℤ → Option sets.Set → List IdMap → List IdMap → Option (List IdMap)
  unfolding get_host_ids get_container_ids new_id_set subtract size_of find_available zip
  auto_mappings size available used additional =
      let requested =
        subtract sets (new_id_set sets (record { start = pos 0; end = size } ∷ []))
          (get_container_ids sets additional) in
      elim (find_available sets (size_of sets requested)
        (subtract sets available (get_host_ids sets (used ++ additional)))) [
          | none ↦ none
          | some found ↦ elim (zip sets found requested) [
            | none ↦ none
            | some ms ↦ some (ms ++ additional)
          ]
        ]

  unfoldable pub get_auto_user_ns_id_mappings :
      ℤ
      → Option sets.Set
      → Option sets.Set
      → List IdMap
      → List IdMap
      → List IdMap
      → List IdMap
      → Option (List IdMap × List IdMap)
  unfolding auto_mappings
  get_auto_user_ns_id_mappings size uids gids used_uids used_gids more_uids more_gids =
      elim (auto_mappings size uids used_uids more_uids) [
        | none ↦ none
        | some uid_map ↦ elim (auto_mappings size gids used_gids more_gids) [
          | none ↦ none
          | some gid_map ↦ some (uid_map, gid_map)
        ]
      ]
