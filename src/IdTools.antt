-- ===== src/IdTools.antt =====
-- pkg/idtools/idtools.go and parser.go: ranges of user and group ids, and translation between a
-- container and its host. Ids are `int`s of 64 bits, whose sums
-- wrap around. A slice of mappings that is nil is `none`.
pub mod Translate
pub mod Ranges
use containers_storage.Prelude.{
  ℕ, Bool, true, false, not, ◌&&◌, ◌||◌, Option, none, some, List, [], ◌∷◌, ◌++◌, Str, codes,
  str_eq, is_prefix, if◌then◌else◌,
}
use containers_storage.Prelude.Int.{ℤ, pos, negsuc, add_int, sub_int, leb_ℤ, ltb_ℤ, eqb_ℤ}

pub record IdMap : Type 0 where
  pub container_id : ℤ
  pub host_id : ℤ
  pub size : ℤ

pub record SubIdRange : Type 0 where
  pub start : ℤ
  pub length : ℤ

pub record IdPair : Type 0 where
  pub uid : ℤ
  pub gid : ℤ

pub record IdMappings : Type 0 where
  pub uids : Option (List IdMap)
  pub gids : Option (List IdMap)

-- id >= start && id <= start + size - 1
abbrev pub in_range : ℤ → ℤ → ℤ → Bool
in_range start size id = leb_ℤ start id && leb_ℤ id (sub_int (add_int start size) (pos 1))

unfoldable pub to_host_from : ℤ → List IdMap → Option ℤ
unfolding add_int sub_int
to_host_from id [] = none
to_host_from id (m ∷ ms) =
    let rest = to_host_from id ms in
    if in_range m.container_id m.size id
    then some (add_int m.host_id (sub_int id m.container_id))
    else rest

unfoldable pub to_container_from : ℤ → List IdMap → Option ℤ
unfolding add_int sub_int
to_container_from id [] = none
to_container_from id (m ∷ ms) =
    let rest = to_container_from id ms in
    if in_range m.host_id m.size id
    then some (add_int m.container_id (sub_int id m.host_id))
    else rest

-- `none` is the error, beside which the code returns -1.
unfoldable pub to_host : ℤ → Option (List IdMap) → Option ℤ
unfolding to_host_from
to_host id none = some id
to_host id (some ms) = to_host_from id ms

unfoldable pub to_container : ℤ → Option (List IdMap) → Option ℤ
unfolding to_container_from
to_container id none = some id
to_container id (some ms) = to_container_from id ms

-- One map of a single id stands for root, whatever id it maps.
unfoldable pub root_id : Option (List IdMap) → Option ℤ
unfolding to_host
root_id (some (m ∷ [])) =
    if eqb_ℤ m.size (pos 1) then some m.host_id else to_host (pos 0) (some (m ∷ []))
root_id none = to_host (pos 0) none
root_id (some []) = to_host (pos 0) (some [])
root_id (some (m ∷ n ∷ ms)) = to_host (pos 0) (some (m ∷ n ∷ ms))

unfoldable pub get_root_uid_gid : Option (List IdMap) → Option (List IdMap) → Option (ℤ × ℤ)
unfolding root_id
get_root_uid_gid uids gids = elim (root_id uids) [
  | none ↦ none
  | some uid ↦ elim (root_id gids) [ none ↦ none | some gid ↦ some (uid, gid) ]
]

abbrev pub or_minus_one : Option ℤ → ℤ
or_minus_one none = negsuc 0
or_minus_one (some id) = id

-- The error of GetRootUIDGID is dropped.
unfoldable pub root_pair : IdMappings → IdPair
unfolding get_root_uid_gid
root_pair i = elim (get_root_uid_gid i.uids i.gids) [
  | none ↦ record { uid = negsuc 0; gid = negsuc 0 }
  | some (uid, gid) ↦ record { uid = uid; gid = gid }
]

-- The pair that ToHost returns, and whether it returns no error.
unfoldable pub pair_to_host : IdMappings → IdPair → IdPair × Bool
unfolding to_host
pair_to_host i pair = elim (to_host pair.uid i.uids) [
  | none ↦ (record { uid = negsuc 0; gid = pos 0 }, false)
  | some uid ↦ elim (to_host pair.gid i.gids) [
    | none ↦ (record { uid = uid; gid = negsuc 0 }, false)
    | some gid ↦ (record { uid = uid; gid = gid }, true)
  ]
]

unfoldable pub pair_to_container : IdMappings → IdPair → IdPair × Bool
unfolding to_container
pair_to_container i pair = elim (to_container pair.uid i.uids) [
  | none ↦ (record { uid = negsuc 0; gid = negsuc 0 }, false)
  | some uid ↦ elim (to_container pair.gid i.gids) [
    | none ↦ (record { uid = uid; gid = negsuc 0 }, false)
    | some gid ↦ (record { uid = uid; gid = gid }, true)
  ]
]

abbrev pub no_maps : Option (List IdMap) → Bool
no_maps none = true
no_maps (some []) = true
no_maps (some (m ∷ ms)) = false

unfoldable pub is_empty : IdMappings → Bool
is_empty i = no_maps i.uids && no_maps i.gids

-- The loop of createIDMap, with the next container id.
unfoldable pub maps_from : ℤ → List SubIdRange → List IdMap
maps_from next [] = []
maps_from next (r ∷ rs) =
    record { container_id = next; host_id = r.start; size = r.length }
    ∷ maps_from (add_int next r.length) rs

-- sort.Sort takes the order that it sorts by.
unfoldable pub create_id_map :
    ((SubIdRange → SubIdRange → Bool) → List SubIdRange → List SubIdRange)
    → List SubIdRange
    → List IdMap
unfolding maps_from
create_id_map sort rs = maps_from (pos 0) (sort (λ a b. ltb_ℤ a.start b.start) rs)

-- The loops of IsContiguous over sorted mappings.
unfoldable pub follows : (IdMap → ℤ) → List IdMap → Bool
follows at [] = true
follows at (m ∷ []) = true
follows at (m ∷ n ∷ ms) = eqb_ℤ (at n) (add_int (at m) m.size) && follows at (n ∷ ms)

unfoldable pub is_contiguous :
    ((IdMap → IdMap → Bool) → List IdMap → List IdMap) → List IdMap → Bool
unfolding follows
is_contiguous sort [] = true
is_contiguous sort (m ∷ []) = true
is_contiguous sort (m ∷ n ∷ ms) =
    let by_host = sort (λ a b. ltb_ℤ a.host_id b.host_id) (m ∷ n ∷ ms) in
    follows (λ a. a.host_id) by_host
    && follows (λ a. a.container_id) (sort (λ a b. ltb_ℤ a.container_id b.container_id) by_host)

-- The texts of a file of ranges: strings.TrimSpace, strings.Split by ":" and strconv.Atoi.
pub record Texts : Type 0 where
  pub trim_space : Str → Str
  pub split_colon : Str → List Str
  pub atoi : Str → Option ℤ
  pub parse_uint32 : Str → Option ℕ

module _ (texts : Texts) where
  abbrev pub subid_range : Str → Str → Option SubIdRange
  subid_range start length = elim (texts.atoi start) [
    | none ↦ none
    | some s ↦ elim (texts.atoi length) [
      | none ↦ none
      | some l ↦ some (record { start = s; length = l })
    ]
  ]

  -- parts[0] == username || username == "ALL" || (parts[0] == uidstr && parts[0] != "")
  abbrev pub is_user : Str → Str → Str → Bool
  is_user uid username first =
      str_eq first username
      || str_eq username (codes "ALL")
      || (str_eq first uid && not (str_eq first []))

  -- One line that is neither empty nor a comment; the ranges it adds, or `none` for an error.
  unfoldable pub subid_parts : Str → Str → List Str → Option (List SubIdRange)
  subid_parts uid username (first ∷ start ∷ length ∷ []) =
      if is_user uid username first
      then elim (subid_range start length) [ none ↦ none | some r ↦ some (r ∷ []) ]
      else some []
  subid_parts uid username [] = none
  subid_parts uid username (a ∷ []) = none
  subid_parts uid username (a ∷ b ∷ []) = none
  subid_parts uid username (a ∷ b ∷ c ∷ d ∷ parts) = none

  unfoldable pub subid_line : Str → Str → Str → Option (List SubIdRange)
  unfolding subid_parts
  subid_line uid username line =
      let text = texts.trim_space line in
      if str_eq text [] || is_prefix (codes "#") text
      then some []
      else subid_parts uid username (texts.split_colon text)

  -- parseSubidFile on the lines that the scanner yields; `uid` is empty where the user is unknown.
  unfoldable pub parse_subid_lines : Str → Str → List Str → Option (List SubIdRange)
  unfolding subid_line
  parse_subid_lines uid username [] = some []
  parse_subid_lines uid username (line ∷ lines) = elim (subid_line uid username line) [
    | none ↦ none
    | some here ↦ elim (parse_subid_lines uid username lines) [
      | none ↦ none
      | some later ↦ some (here ++ later)
    ]
  ]

  unfoldable pub parse_triple : Str → Str → Str → Option (ℕ × ℕ × ℕ)
  parse_triple c h s = elim (texts.parse_uint32 c) [
    | none ↦ none
    | some cid ↦ elim (texts.parse_uint32 h) [
      | none ↦ none
      | some hid ↦ elim (texts.parse_uint32 s) [ none ↦ none | some size ↦ some (cid, hid, size) ]
    ]
  ]

  -- The parts of one setting, three at a time; an `int` has 64 bits.
  unfoldable pub parse_triples : List Str → Option (List IdMap)
  unfolding parse_triple
  parse_triples [] = some []
  parse_triples (a ∷ []) = none
  parse_triples (a ∷ b ∷ []) = none
  parse_triples (a ∷ b ∷ c ∷ parts) = elim (parse_triple a b c) [
    | none ↦ none
    | some (cid, hid, size) ↦ elim (parse_triples parts) [
      | none ↦ none
      | some ms ↦ some (record { container_id = pos cid; host_id = pos hid; size = pos size } ∷ ms)
    ]
  ]

  unfoldable pub parse_id_map : List Str → Option (List IdMap)
  unfolding parse_triples
  parse_id_map [] = some []
  parse_id_map (spec ∷ specs) =
      let rest = parse_id_map specs in
      if str_eq spec [] then rest else elim (parse_triples (texts.split_colon spec)) [
        | none ↦ none
        | some here ↦ elim rest [ none ↦ none | some later ↦ some (here ++ later) ]
      ]
