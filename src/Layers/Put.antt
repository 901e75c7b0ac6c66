-- ===== src/Layers/Put.antt =====
-- layerStore.Put of layers.go, with CreateWithFlags and Create, and PutAdditionalLayer.
use containers_storage.Prelude.{
  ℕ, zero, suc, true, not, ◌&&◌, Option, none, some, [], Str, codes, str_eq, is_some, if◌then◌else◌,
}
use containers_storage.Prelude.GoMap
use containers_storage.Prelude.GoMap.{GoMap}
use containers_storage.Prelude.Int.{ℤ, negsuc}
use containers_storage.Prelude.Exec.{
  duplicate_id, duplicate_name, layer_unknown, Result, ok, fails, panics, diverges, Exec, ◌>>=◌,
  ◌>>◌,
}
use containers_storage.IdTools.{IdMappings}
use containers_storage.StringId.{generate_id}
use containers_storage.Names.{dedupe_names}
use containers_storage.Containers.{Value, bool}
use containers_storage.Containers.Create.{any_in_use}
use containers_storage.Directory.{enter_item}
use containers_storage.Layers.{
  Layer, LayerPlatform, LayerStore, on_world, in_world, layer_at, lookup, when_writable,
}
use containers_storage.Layers.Request.{
  Request, no_mappings, parent_id, parent_mappings, asked_mappings, create_opts, new_layer,
}
use containers_storage.Layers.Mounts.{save}
use containers_storage.Layers.Mount.{same_maps}
use containers_storage.Layers.Changes.{with_flags}
use containers_storage.Layers.Delete.{delete}
use containers_storage.Layers.Diff.{LayerOptions, mappings_of, apply_diff}

module _ {p : LayerPlatform} where
  abbrev pub undone :
      {A : Type 0}
      → (LayerStore p → LayerStore p)
      → Result A
      → LayerStore p
      → Result A × LayerStore p
  undone undo (ok a) t = (ok a, t)
  undone undo (fails e) t = (fails e, undo t)
  undone undo panics t = (panics, t)
  undone undo diverges t = (diverges, t)

  -- What is done at an error, before the error is returned.
  abbrev pub undoing :
      {A : Type 0} → (LayerStore p → LayerStore p) → Exec (LayerStore p) A → Exec (LayerStore p) A
  undoing undo m s = undone undo (m s).0 (m s).1

  -- r.driver.Remove(id), whose error is dropped
  abbrev pub remove_again : Str → LayerStore p → LayerStore p
  remove_again id s = (on_world (p.driver.remove id) s).1

  -- The loop that draws ids until one is not in use; its rounds, and those of each draw, are bounded.
  unfoldable pub fresh_layer_id : ℕ → ℕ → Exec (LayerStore p) Str
  fresh_layer_id draws zero s = (diverges, s)
  fresh_layer_id draws (suc fuel) s =
      let (r, t) = on_world (generate_id p.env.random draws) s in
      elim r [
        | ok id ↦
            let again = fresh_layer_id draws fuel t in
            if is_some (GoMap.get t.tables.byid id) then again else (ok id, t)
        | fails e ↦ (fails e, t)
        | panics ↦ (panics, t)
        | diverges ↦ (diverges, t)
      ]

  unfoldable pub choose_layer_id : ℕ → ℕ → Str → Exec (LayerStore p) Str
  unfolding fresh_layer_id
  choose_layer_id draws fuel id s = if str_eq id [] then fresh_layer_id draws fuel s else (ok id, s)

  -- The mappings of the template, where there is one; `none` is a template that is not known.
  unfoldable pub template_mappings : LayerStore p → Str → Option IdMappings
  unfolding lookup
  template_mappings s template =
      if str_eq template []
      then some no_mappings
      else elim (lookup s template) [ none ↦ none | some r ↦ some (mappings_of (layer_at s r)) ]

  unfoldable pub create_by_driver : Str → Request → IdMappings → Exec (LayerStore p) (Unit {0})
  create_by_driver id q template = on_world (
      if not (str_eq q.options.template_layer [])
      then p.driver.create_from_template id q.options.template_layer template (parent_id q.parent)
          (parent_mappings q.parent) (create_opts q) q.writeable
      else if q.writeable
      then p.driver.create_read_write id (parent_id q.parent) (create_opts q)
      else p.driver.create id (parent_id q.parent) (create_opts q))

  -- The owners of the layer's files are changed, unless they are those of the mappings asked for.
  unfoldable pub change_owners : Str → Request → IdMappings → Exec (LayerStore p) (Unit {0})
  unfolding same_maps
  change_owners id q old s =
      if same_maps old.uids q.options.uid_map && same_maps old.gids q.options.gid_map
      then (ok tt, s)
      else undoing (remove_again id)
          (on_world (p.driver.update_layer_id_map id old (asked_mappings q) q.mount_label)) s

  unfoldable pub create_on_disk : Str → Request → IdMappings → Exec (LayerStore p) (Unit {0})
  unfolding create_by_driver change_owners
  create_on_disk id q template = do
    create_by_driver id q template
    change_owners id q
        (if str_eq q.options.template_layer [] then parent_mappings q.parent else template)

  abbrev pub set_flag_at : ℕ → Str → Value → LayerStore p → LayerStore p
  set_flag_at r flag value s = with_flags s r (GoMap.put (layer_at s r).flags flag value)

  abbrev pub unset_flag_at : ℕ → Str → LayerStore p → LayerStore p
  unset_flag_at r flag s = with_flags s r (GoMap.del (layer_at s r).flags flag)

  -- While its contents are applied, the layer is marked as incomplete; where they cannot be, it is
  -- deleted.
  unfoldable pub fill : ℕ → ℕ → LayerOptions → Option Str → Exec (LayerStore p) ℤ
  unfolding save apply_diff delete
  fill fuel r options none s = (ok (negsuc 0), s)
  fill fuel r options (some diff) s =
      let id = (layer_at s r).id in
      (do
        undoing (remove_again id) save
        size ← undoing (λ t. (delete fuel id t).1) (apply_diff id options diff)
        λ t. (ok size, unset_flag_at r (codes "incomplete") t))
        (set_flag_at r (codes "incomplete") (bool true) s)

  -- The record is entered into every table, filled and saved.
  unfoldable pub put_record : ℕ → Request → Layer → Exec (LayerStore p) (Layer × ℤ)
  unfolding enter_item fill save
  put_record fuel q l s =
      let r = s.tables.heap.next in
      (do
        size ← fill fuel r q.options q.diff
        undoing (remove_again l.id) save
        λ t. (ok (layer_at t r, size), t))
        (record s { tables = enter_item l s.tables })

  abbrev pub reserving : Str → LayerStore p → LayerStore p
  reserving label s = if str_eq label [] then s else in_world (p.labels.reserve label) s

  -- `none` is a template that is not known.
  unfoldable pub put_new : ℕ → Str → Request → Option IdMappings → Exec (LayerStore p) (Layer × ℤ)
  unfolding create_on_disk put_record new_layer
  put_new fuel id q none s = (fails layer_unknown, s)
  put_new fuel id q (some template) s =
      (do
        create_on_disk id q template
        λ t. put_record fuel q (new_layer id q (p.env.now t.world)) t)
        (reserving q.mount_label s)

  unfoldable pub put_at : ℕ → Str → Request → Exec (LayerStore p) (Layer × ℤ)
  unfolding dedupe_names any_in_use template_mappings put_new
  put_at fuel id q s =
      if is_some (GoMap.get s.tables.byid id)
      then (fails duplicate_id, s)
      else if any_in_use s.tables.byname (dedupe_names q.names)
      then (fails duplicate_name, s)
      else put_new fuel id q (template_mappings s q.options.template_layer) s

  -- `draws` and `rounds` bound the search for an id, `fuel` the unmounting of a layer that could not
  -- be filled.
  unfoldable pub put : ℕ → ℕ → ℕ → Str → Request → Exec (LayerStore p) (Layer × ℤ)
  unfolding choose_layer_id put_at
  put draws rounds fuel id q = when_writable (λ s.
      (do
        on_world (p.env.mkdir_all s.run_dir)
        on_world (p.env.mkdir_all s.layer_dir)
        chosen ← choose_layer_id draws rounds id
        put_at fuel chosen q)
        s)
