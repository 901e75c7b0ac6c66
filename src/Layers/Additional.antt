-- ===== src/Layers/Additional.antt =====
-- PutAdditionalLayer of layers.go: a layer of an additional layer store.
use containers_storage.Prelude.{Option, List, [], ◌∷◌, ◌++◌, Str, str_eq, is_some, if◌then◌else◌}
use containers_storage.Prelude.GoMap
use containers_storage.Prelude.GoMap.{GoMap}
use containers_storage.Prelude.Exec.{duplicate_id, duplicate_name, fails, Exec, pure, ◌>>=◌, ◌>>◌}
use containers_storage.Containers.Create.{any_in_use, name_all}
use containers_storage.Directory.{Tables, enter_item}
use containers_storage.Layers.{Layer, LayerPlatform, LayerStore, layer_kind, on_world}
use containers_storage.Layers.Mounts.{save}
use containers_storage.Layers.Digests.{ids_under, add_id}
use containers_storage.Layers.Request.{parent_id}
use containers_storage.Layers.Put.{undoing, remove_again}

module _ {p : LayerPlatform} where
  -- The layer is entered into the tables under the names asked for, which its record does not get. The
  -- second table of digests has it under the compressed digest.
  unfoldable pub enter_additional : List Str → Layer → LayerStore p → LayerStore p
  unfolding enter_item name_all add_id ids_under
  enter_additional names l s =
      let t : Tables layer_kind p.index = record (enter_item l s.tables) {
        byname = name_all s.tables.byname names s.tables.heap.next;
      } in
      record s {
        tables = t;
        bycompressedsum = add_id s.bycompressedsum l.compressed_digest l.id;
        byuncompressedsum =
            if str_eq l.uncompressed_digest []
            then s.byuncompressedsum
            else GoMap.put s.byuncompressedsum l.compressed_digest
                (ids_under s.byuncompressedsum l.compressed_digest ++ l.id ∷ []);
      }

  abbrev save_additional : Layer → Exec (LayerStore p) Layer
  save_additional l = do undoing (remove_again l.id) save; pure l

  -- `info` is the record that aLayer.Info() yields, decoded; `create_as` is aLayer.CreateAs.
  unfoldable pub put_additional_layer :
      Exec p.env.World Layer
      → (Str → Str → Exec p.env.World (Unit {0}))
      → Str
      → Option Layer
      → List Str
      → Exec (LayerStore p) Layer
  unfolding any_in_use enter_additional save
  put_additional_layer info create_as id parent names s =
      if is_some (GoMap.get s.tables.byid id)
      then (fails duplicate_id, s)
      else if any_in_use s.tables.byname names
      then (fails duplicate_name, s)
      else (do
        decoded ← on_world info
        λ t.
            let l : Layer = record decoded {
              id = id;
              parent = parent_id parent;
              created = p.env.now t.world;
            } in
            (do
              on_world (create_as id (parent_id parent))
              λ u. save_additional l (enter_additional names l u))
              t)
          s
