-- ===== src/Directory.antt =====
-- The part that the stores of images.go and layers.go have in common: records behind pointers, a slice
-- that lists them, and tables that find them by id, by name and by a prefix of the id. A store has these
-- tables beside others of its own.
pub mod Agrees
pub mod Alloc
pub mod Enter
pub mod Forget
pub mod Names
pub mod Find
pub mod Loading
pub mod Rebuild
use containers_storage.Prelude.{
  ℕ, suc, ◌≡◌, Bool, true, false, ◌||◌, Option, none, some, List, [], ◌∷◌, ◌++◌, map, Str, str_eq,
  is_some, if◌then◌else◌,
}
use containers_storage.Prelude.GoMap
use containers_storage.Prelude.GoMap.{GoMap}
use containers_storage.Prelude.Heap.{Heap, write, alloc}
use containers_storage.Slices.{cut_found}
use containers_storage.Names.{without_value}
use containers_storage.TruncIndex.Interface.{IdIndex}
use containers_storage.Containers.{or_else, by_prefix}
use containers_storage.Containers.Create.{name_all}
use containers_storage.Containers.Delete.{unname_all}

-- A type of records with an id and names.
pub record Kind : Type 1 where
  pub Item : Type 0
  pub id_of : Item → Str
  pub names_of : Item → List Str
  pub with_names : Item → List Str → Item
  pub id-with_names : (i : Item) (ns : List Str) → id_of (with_names i ns) ≡ id_of i
  pub names-with_names : (i : Item) (ns : List Str) → names_of (with_names i ns) ≡ ns
  pub with_names_self : (i : Item) → with_names i (names_of i) ≡ i
  pub with_names_twice :
      (i : Item) (ms ns : List Str) → with_names (with_names i ms) ns ≡ with_names i ns

pub record Tables (k : Kind) (ix : IdIndex) : Type 0 where
  pub heap : Heap k.Item
  pub items : List ℕ
  pub idindex : ix.Index
  pub byid : GoMap ℕ
  pub byname : GoMap ℕ

-- The position of the first item with the id, and of the last.
unfoldable pub position_of : (ℕ → Str) → List ℕ → Str → Option ℕ
position_of id_at [] id = none
position_of id_at (r ∷ rs) id =
    let rest : Option ℕ = elim (position_of id_at rs id) [ none ↦ none | some i ↦ some (suc i) ] in
    if str_eq (id_at r) id then some 0 else rest

-- One fresh object for each decoded record.
unfoldable pub alloc_items : {A : Type 0} → Heap A → List A → Heap A × List ℕ
alloc_items h [] = (h, [])
alloc_items h (i ∷ is) = let (h', rs) = alloc_items (alloc h i) is in (h', h.next ∷ rs)

module _ {k : Kind} {ix : IdIndex} where
  abbrev pub id_at : Tables k ix → ℕ → Str
  id_at s r = k.id_of (s.heap.cell r)

  abbrev pub names_at : Tables k ix → ℕ → List Str
  names_at s r = k.names_of (s.heap.cell r)

  abbrev pub write_item : Tables k ix → ℕ → k.Item → Tables k ix
  write_item s r i = record s { heap = write s.heap r i }

  unfoldable pub find : Tables k ix → Str → Option ℕ
  find s id =
      or_else (GoMap.get s.byid id)
        (or_else (GoMap.get s.byname id) (by_prefix s.byid (ix.get s.idindex id)))

  unfoldable pub drop_name : Tables k ix → ℕ → Str → Tables k ix
  drop_name s r name =
      write_item s r (k.with_names (s.heap.cell r) (without_value (names_at s r) name))

  -- A new record is entered into every table.
  unfoldable pub enter_item : k.Item → Tables k ix → Tables k ix
  unfolding name_all
  enter_item i s = record {
    heap = alloc s.heap i;
    items = s.items ++ s.heap.next ∷ [];
    idindex = (ix.add s.idindex (k.id_of i)).1;
    byid = GoMap.put s.byid (k.id_of i) s.heap.next;
    byname = name_all s.byname (k.names_of i) s.heap.next;
  }

  -- A record is taken out of every table.
  unfoldable pub forget_item : ℕ → Tables k ix → Tables k ix
  unfolding position_of cut_found unname_all
  forget_item r s = record s {
    byid = GoMap.del s.byid (id_at s r);
    idindex = (ix.delete s.idindex (id_at s r)).1;
    byname = unname_all s.byname (names_at s r);
    items = cut_found s.items (position_of (id_at s) s.items (id_at s r));
  }

  -- A name leaves the record that has it, and leads to `r`.
  unfoldable pub move_name : ℕ → Tables k ix → Str → Tables k ix
  unfolding drop_name
  move_name r s name =
      let t : Tables k ix = elim (GoMap.get s.byname name) [
        | none ↦ s
        | some holder ↦ drop_name s holder name
      ] in
      record t { byname = GoMap.put t.byname name r }

  unfoldable pub move_names : ℕ → Tables k ix → List Str → Tables k ix
  unfolding move_name
  move_names r s [] = s
  move_names r s (name ∷ names) = move_names r (move_name r s name) names

  unfoldable pub set_names_of : ℕ → List Str → Tables k ix → Tables k ix
  unfolding move_names unname_all
  set_names_of r names s =
      let t = move_names r (record s { byname = unname_all s.byname (names_at s r) }) names in
      write_item t r (k.with_names (t.heap.cell r) names)

  -- The names of one loaded record, and whether another record had one of them.
  unfoldable pub load_names_of : ℕ → List Str → Tables k ix × Bool → Tables k ix × Bool
  unfolding move_name
  load_names_of r [] (t, need) = (t, need)
  load_names_of r (name ∷ names) (t, need) =
      load_names_of r names (move_name r t name, is_some (GoMap.get t.byname name) || need)

  abbrev pub enter_id_of : Tables k ix → ℕ → Tables k ix
  enter_id_of t r = record t { byid = GoMap.put t.byid (id_at t r) r }

  unfoldable pub load_items : List ℕ → Tables k ix × Bool → Tables k ix × Bool
  unfolding load_names_of
  load_items [] (t, need) = (t, need)
  load_items (r ∷ rs) (t, need) =
      load_items rs (load_names_of r (names_at t r) (enter_id_of t r, need))

  abbrev pub blank_tables : Heap k.Item → List k.Item → Tables k ix
  blank_tables h is =
      let (h', rs) = alloc_items h is in
      record {
        heap = h';
        items = rs;
        idindex = ix.build [];
        byid = GoMap.empty;
        byname = GoMap.empty;
      }

  abbrev pub indexed_tables : Tables k ix → Tables k ix
  indexed_tables t = record t { idindex = ix.build (map (id_at t) t.items) }

  -- The tables for the records of a file, on the heap as it is.
  unfoldable pub rebuild_tables : Heap k.Item → List k.Item → Tables k ix × Bool
  unfolding load_items alloc_items
  rebuild_tables h is =
      let (t, need) = load_items (blank_tables h is).items (blank_tables h is, false) in
      (indexed_tables t, need)
