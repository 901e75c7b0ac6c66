-- ===== src/Layers/Load.antt =====
-- layerStore.Load, Modified and ReloadIfChanged of layers.go. The local maps of Load are here tables
-- that replace those of the store where it assigns them.
use containers_storage.Prelude.{
  ℕ, zero, suc, ◌+◌, ◌-◌, Bool, true, false, not, ◌&&◌, ◌||◌, Option, none, some, List, [], ◌∷◌,
  ◌++◌, map, length, take, drop, Str, str_eq, codes, if◌then◌else◌, ◌==◌,
}
use containers_storage.Prelude.GoMap
use containers_storage.Prelude.GoMap.{GoMap}
use containers_storage.Prelude.Exec.{
  duplicate_layer_names, malformed, os_error, Result, ok, fails, panics, diverges, Exec, ◌>>=◌,
  ◌>>◌,
}
use containers_storage.Env.{FileRead, contents, missing, unreadable}
use containers_storage.Containers.{bool, string, strings, anys, other}
use containers_storage.Directory.{Tables, rebuild_tables, blank_tables, position_of, id_at}
use containers_storage.Layers.{
  Layer, Labels, LayerPlatform, LayerStore, layer_kind, ModTime, modified_at, no_file, no_stat,
  on_world, in_world, layer_at, lookup, layers_path,
}
use containers_storage.Layers.Mounts.{holding_mounts, load_mounts, save_layers}
use containers_storage.Layers.Digests.{add_id}
use containers_storage.Layers.Delete.{delete_internal}

-- compressedsums and uncompressedsums after the loop over the records
unfoldable pub sums_of : (Layer → Str) → List Layer → GoMap (List Str) → GoMap (List Str)
unfolding add_id
sums_of digest [] m = m
sums_of digest (l ∷ ls) m = sums_of digest ls (add_id m (digest l) l.id)

-- layer.ReadOnly = !r.IsReadWrite()
abbrev pub mark_read_only : Bool → Layer → Layer
mark_read_only ro l = record l { read_only = ro }

-- cleanup, ok := layer.Flags[incompleteFlag], which has to be true
unfoldable pub is_incomplete : Layer → Bool
is_incomplete l = elim (GoMap.get l.flags (codes "incomplete")) [
  | none ↦ false
  | some v ↦ elim v [
    | bool b ↦ b
    | string t ↦ false
    | strings ts ↦ false
    | anys ts ↦ false
    | other ↦ false
  ]
]

-- The array under a slice of length `n` after append(s[:i], s[i+1:]...): the elements after `i` move
-- down by one, and what stands behind the shorter slice stays.
unfoldable pub shift_down : ℕ → ℕ → List ℕ → List ℕ
shift_down i n array = take i array ++ (drop (i + 1) (take n array) ++ drop (n - 1) array)

-- label.ReserveLabel of every layer that has a label
unfoldable pub reserve_labels : {W : Type 0} → Labels W → List Layer → W → W
reserve_labels labels [] w = w
reserve_labels labels (l ∷ ls) w =
    reserve_labels labels ls (if str_eq l.mount_label [] then w else labels.reserve l.mount_label w)

-- The element at the loop's position, if there is one.
abbrev pub at_first : {X : Type 0} → List ℕ → X → (ℕ → X) → X
at_first [] stop go = stop
at_first (r ∷ rs) stop go = go r

module _ {p : LayerPlatform} where
  abbrev pub with_tables : Tables layer_kind p.index → List Layer → LayerStore p → LayerStore p
  with_tables t ls s = record s {
    tables = t;
    bycompressedsum = sums_of (λ l. l.compressed_digest) ls GoMap.empty;
    byuncompressedsum = sums_of (λ l. l.uncompressed_digest) ls GoMap.empty;
  }

  -- The array under r.layers after the layer was deleted.
  unfoldable pub shift_deleted : List ℕ → LayerStore p → Option ℕ → List ℕ
  unfolding shift_down position_of
  shift_deleted array s none = array
  shift_deleted array s (some q) =
      elim (position_of (id_at s.tables) s.tables.items (layer_at s q).id) [
        | none ↦ array
        | some i ↦ shift_down i (length s.tables.items) array
      ]

  -- What the loop does after deleteInternal: it breaks at an error.
  abbrev pub cleaned :
      Result (Unit {0})
      → Bool
      → LayerStore p
      → (Result (Unit {0}) × Bool) × LayerStore p
      → (Result (Unit {0}) × Bool) × LayerStore p
  cleaned (ok u) need t onward = onward
  cleaned (fails e) need t onward = ((fails e, need), t)
  cleaned panics need t onward = ((panics, need), t)
  cleaned diverges need t onward = ((diverges, need), t)

  -- for _, layer := range r.layers, which goes over the array that r.layers had when the loop began,
  -- while deleteInternal moves its elements. The loop ends at an error, and tells whether a layer was
  -- deleted.
  unfoldable pub clean_up :
      ℕ → ℕ → List ℕ → Bool → LayerStore p → (Result (Unit {0}) × Bool) × LayerStore p
  unfolding shift_deleted delete_internal
  clean_up zero j array need s = ((ok tt, need), s)
  clean_up (suc rounds) j array need s =
      at_first (drop j array) ((ok tt, need), s)
        (λ r.
          let (result, t) = delete_internal (layer_at s r).id s in
          let shifted = shift_deleted array s (lookup s (layer_at s r).id) in
          let next = clean_up rounds (suc j) array need s in
          let onward = clean_up rounds (suc j) shifted true t in
          if is_incomplete (layer_at s r) then cleaned result need t onward else next)

  abbrev pub save_or : Bool → Result (Unit {0}) → Exec (LayerStore p) (Unit {0})
  save_or true result s = save_layers s
  save_or false result s = (result, s)

  -- What Load does last, on a store that can be written.
  unfoldable pub finish_load : Bool → Exec (LayerStore p) (Unit {0})
  unfolding clean_up load_mounts save_layers
  finish_load need = holding_mounts p.mounts.rlock (do
    load_mounts
    λ s.
        let ((result, dirty), t) = clean_up (length s.tables.items) 0 s.tables.items need s in
        if p.env.locked s.world then save_or dirty result t else save_or need (ok tt) s)

  -- The tables of the store for marked records.
  unfoldable pub load_marked : Bool → List Layer → Exec (LayerStore p) (Unit {0})
  unfolding rebuild_tables sums_of reserve_labels finish_load
  load_marked writable marked s =
      let (t, need) = rebuild_tables s.tables.heap marked in
      let reserved = in_world (reserve_labels p.labels marked) s in
      let u = with_tables t marked reserved in
      if need && not (writable && p.env.locked u.world)
      then (fails duplicate_layer_names, reserved)
      else if writable
      then finish_load need u
      else (ok tt, u)

  -- The records of the file, where it could be read and parsed.
  unfoldable pub load_layers : List Layer → Exec (LayerStore p) (Unit {0})
  unfolding load_marked
  load_layers ls s =
      let writable = p.env.read_write s.world in
      load_marked writable (map (mark_read_only (not writable)) ls) s

  -- The file was read, and is not what it should be: only the slice of layers is filled. On a store
  -- that can be written, loadMounts overwrites the error.
  unfoldable pub load_malformed : List Layer → Exec (LayerStore p) (Unit {0})
  unfolding finish_load
  load_malformed ls s =
      let t = with_tables (blank_tables s.tables.heap ls) [] s in
      if p.env.read_write s.world then finish_load false t else (fails malformed, t)

  unfoldable pub load_data : Str → Exec (LayerStore p) (Unit {0})
  unfolding load_layers load_malformed
  load_data content s =
      let (good, ls) = p.unmarshal content in
      let t = if p.env.read_write s.world then in_world p.labels.clear s else s in
      if str_eq content [] || good then load_layers ls t else load_malformed ls t

  unfoldable pub load_read : FileRead → Exec (LayerStore p) (Unit {0})
  unfolding load_data
  load_read (contents content) s = load_data content s
  load_read missing s = load_data [] s
  load_read unreadable s = (fails os_error, s)

  unfoldable pub load : Exec (LayerStore p) (Unit {0})
  unfolding load_read
  load s = load_read (p.env.read_file s.world (layers_path s)) s

  -- The time at which the file was changed is compared with the one that was seen last.
  unfoldable pub file_modified : ModTime → Exec (LayerStore p) Bool
  file_modified (modified_at time) s =
      (ok (not (time == s.layers_path_modified)), record s { layers_path_modified = time })
  file_modified no_file s = (ok false, s)
  file_modified no_stat s = (fails os_error, s)

  unfoldable pub either_modified : Bool → Exec (LayerStore p) Bool
  unfolding file_modified
  either_modified changed s =
      if changed then (ok true, s) else file_modified (p.mod_time s.world (layers_path s)) s

  unfoldable pub modified : Exec (LayerStore p) Bool
  unfolding either_modified
  modified = do
    layers_changed ← on_world p.env.modified
    λ s.
        if p.env.read_write s.world
        then holding_mounts p.mounts.rlock
            (do
              mounts_changed ← on_world p.mounts.modified
              either_modified (layers_changed || mounts_changed))
            s
        else either_modified layers_changed s

  -- The mutex on loading is left out.
  unfoldable pub reload_if_changed : Exec (LayerStore p) (Unit {0})
  unfolding modified load
  reload_if_changed = do changed ← modified; λ s. if changed then load s else (ok tt, s)
