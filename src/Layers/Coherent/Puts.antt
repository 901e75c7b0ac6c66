-- ===== src/Layers/Coherent/Puts.antt =====
-- Put of layers.go keeps the tables in agreement.
use containers_storage.Layers.Coherent.Diffs.{apply_diff-Coherent}
use containers_storage.Prelude.{
  ℕ, zero, suc, ◌≡◌, refl, sym, subst, true, false, Option, none, some, List, [], arith, Str, codes,
  str_eq, Bool-cases, Option-cases, inl, inr,
}
use containers_storage.Prelude.GoMap
use containers_storage.Prelude.GoMap.{GoMap}
use containers_storage.Prelude.Int.{negsuc}
use containers_storage.Prelude.Exec.{
  Result, ok, fails, panics, diverges, Exec, Keeps-bind, continue_keeps,
}
use containers_storage.Containers.{bool}
use containers_storage.Containers.Create.{any_in_use}
use containers_storage.StringId.{generate_id}
use containers_storage.Names.{dedupe_names}
use containers_storage.IdTools.{IdMappings}
use containers_storage.Directory.{enter_item}
use containers_storage.Directory.Enter.{enter_item-Agrees}
use containers_storage.Layers.{Layer, LayerPlatform, LayerStore, on_world, layer_at}
use containers_storage.Layers.Mounts.{save}
use containers_storage.Layers.Delete.{delete}
use containers_storage.Layers.Diff.{LayerOptions, apply_diff}
use containers_storage.Layers.Put.{
  undone, undoing, remove_again, fresh_layer_id, choose_layer_id, create_by_driver, change_owners,
  create_on_disk, set_flag_at, fill, put_record, put_new, put_at, put, reserving,
}
use containers_storage.Layers.Request.{Request, new_layer}
use containers_storage.Layers.Filed.{enter_item-Filed}
use containers_storage.Layers.Coherent.{
  KeepsCoherent, Coherent, Coherent-world, modify-Coherent, on_world-Coherent, if-Coherent,
  return-Coherent, when_writable-Coherent,
}
use containers_storage.Layers.Coherent.Saving.{save-Coherent}
use containers_storage.Layers.Coherent.Entries.{delete-Coherent}

module _ {p : LayerPlatform} where
  undone-Coherent :
      {A : Type 0} (undo : LayerStore p → LayerStore p)
      → ((t : LayerStore p) → Coherent t → Coherent (undo t))
      → (r : Result A) (t : LayerStore p) → Coherent t
      → Coherent (undone undo r t).1
  undone-Coherent undo k (ok a) t v = v
  undone-Coherent undo k (fails e) t v = k t v
  undone-Coherent undo k panics t v = v
  undone-Coherent undo k diverges t v = v

  undoing-Coherent :
      {A : Type 0} (undo : LayerStore p → LayerStore p) (m : Exec (LayerStore p) A)
      → ((t : LayerStore p) → Coherent t → Coherent (undo t))
      → KeepsCoherent m
      → KeepsCoherent (undoing undo m)
  undoing-Coherent undo m k km = record {
    at = λ s v. undone-Coherent undo k (m s).0 (m s).1 (km.at s v);
  }

  saving_or_remove-Coherent : (id : Str) → KeepsCoherent (undoing (remove_again {p = p} id) save)
  saving_or_remove-Coherent id =
      undoing-Coherent (remove_again id) save (λ t v. Coherent-world t _ v) save-Coherent

  fill-Coherent :
      (fuel r : ℕ) (options : LayerOptions) (diff : Option Str)
      → KeepsCoherent (fill {p = p} fuel r options diff)
  unfolding fill
  fill-Coherent fuel r options none = return-Coherent (ok (negsuc 0))
  fill-Coherent fuel r options (some diff) = record {
    at = λ s v.
        let id = (layer_at s r).id in
        (Keeps-bind (undoing (remove_again id) save) _ (saving_or_remove-Coherent id) (λ a.
            Keeps-bind (undoing (λ t. (delete fuel id t).1) (apply_diff id options diff)) _
              (undoing-Coherent (λ t. (delete fuel id t).1) (apply_diff id options diff)
                (λ t w. (delete-Coherent fuel id).at t w) (apply_diff-Coherent id options diff))
              (λ size. record { at = λ t w. modify-Coherent t r _ refl refl refl refl w }))).at
          (set_flag_at r (codes "incomplete") (bool true) s)
          (modify-Coherent s r _ refl refl refl refl v);
  }

  enter_item-Coherent :
      (l : Layer) (s : LayerStore p)
      → GoMap.get s.tables.byid l.id ≡ none
      → any_in_use s.tables.byname l.names ≡ false
      → l.compressed_digest ≡ []
      → l.uncompressed_digest ≡ []
      → Coherent s
      → Coherent (record s { tables = enter_item l s.tables })
  enter_item-Coherent l s unused free compressed uncompressed v = record {
    tables = enter_item-Agrees l s.tables v.tables unused free;
    compressed =
        enter_item-Filed l s.tables s.bycompressedsum v.tables unused compressed v.compressed;
    uncompressed =
        enter_item-Filed l s.tables s.byuncompressedsum v.tables unused uncompressed v.uncompressed;
  }

  put_record-Coherent :
      (fuel : ℕ) (q : Request) (l : Layer) (s : LayerStore p)
      → Coherent (record s { tables = enter_item l s.tables })
      → Coherent (put_record fuel q l s).1
  unfolding put_record
  put_record-Coherent fuel q l s v =
      let r = s.tables.heap.next in
      (Keeps-bind (fill fuel r q.options q.diff) _ (fill-Coherent fuel r q.options q.diff) (λ size.
          Keeps-bind (undoing (remove_again l.id) save) _ (saving_or_remove-Coherent l.id)
            (λ a. record { at = λ t w. w }))).at
        _ v

  -- The id and the names can be given to a new layer.
  record Ready (id : Str) (names : List Str) (s : LayerStore p) : Type 0 where
    coherent : Coherent s
    unused : GoMap.get s.tables.byid id ≡ none
    free : any_in_use s.tables.byname names ≡ false

  Ready-world :
      (id : Str) (names : List Str) (s : LayerStore p) (w : p.env.World)
      → Ready id names s
      → Ready id names (record s { world = w })
  Ready-world id names s w v = record {
    coherent = Coherent-world s w v.coherent;
    unused = v.unused;
    free = v.free;
  }

  create_on_disk-world :
      (id : Str) (q : Request) (template : IdMappings) (s : LayerStore p)
      → (create_on_disk id q template s).1
        ≡ record s { world = (create_on_disk id q template s).1.world }
  unfolding create_on_disk create_by_driver change_owners
  create_on_disk-world id q template s = ground arith

  reserving-Ready :
      (id : Str) (names : List Str) (label : Str) (s : LayerStore p)
      → Ready id names s
      → Ready id names (reserving label s)
  reserving-Ready id names label s v = elim (Bool-cases (str_eq label [])) [
    | inl e ↦ rw e v
    | inr e ↦ rw e (Ready-world id names s _ v)
  ]

  put_new-Coherent :
      (fuel : ℕ) (id : Str) (q : Request) (o : Option IdMappings) (s : LayerStore p)
      → Ready id (dedupe_names q.names) s
      → Coherent (put_new fuel id q o s).1
  unfolding put_new
  put_new-Coherent fuel id q none s v = v.coherent
  put_new-Coherent fuel id q (some template) s v =
      let names = dedupe_names q.names in
      let u = reserving q.mount_label s in
      let made = (create_on_disk id q template u).1 in
      let w =
        subst (Ready id names) (sym (create_on_disk-world id q template u))
          (Ready-world id names u made.world (reserving-Ready id names q.mount_label s v)) in
      continue_keeps Coherent (create_on_disk id q template u).0
        (λ _ t. put_record fuel q (new_layer id q (p.env.now t.world)) t) made w.coherent
        (λ a h.
          put_record-Coherent fuel q _ made
            (unfold new_layer in enter_item-Coherent _ made w.unused w.free refl refl w.coherent))

  put_at-Coherent : (fuel : ℕ) (id : Str) (q : Request) → KeepsCoherent (put_at {p = p} fuel id q)
  unfolding put_at
  put_at-Coherent fuel id q = record {
    at = λ s v. elim (Option-cases (GoMap.get s.tables.byid id)) [
      | inr (r, e) ↦ rw e v
      | inl unused ↦ elim (Bool-cases (any_in_use s.tables.byname (dedupe_names q.names))) [
        | inl e ↦ rw (unused, e) v
        | inr free ↦
            rw (unused, free)
              (put_new-Coherent fuel id q _ s
                (record { coherent = v; unused = unused; free = free }))
      ]
    ];
  }

  fresh_layer_id-world :
      (draws fuel : ℕ) (s : LayerStore p)
      → (fresh_layer_id draws fuel s).1 ≡ record s { world = (fresh_layer_id draws fuel s).1.world }
  unfolding fresh_layer_id
  fresh_layer_id-world draws zero s = refl
  fresh_layer_id-world draws (suc fuel) s =
      ground
        (arith, fresh_layer_id-world draws fuel (on_world (generate_id p.env.random draws) s).1)

  choose_layer_id-Coherent :
      (draws rounds : ℕ) (id : Str) → KeepsCoherent (choose_layer_id {p = p} draws rounds id)
  unfolding choose_layer_id
  choose_layer_id-Coherent draws rounds id =
      if-Coherent (λ s. str_eq id []) _ _
        (record {
          at = λ s v.
              subst Coherent (sym (fresh_layer_id-world draws rounds s)) (Coherent-world s _ v);
        })
        (record { at = λ s v. v })

  pub put-Coherent :
      (draws rounds fuel : ℕ) (id : Str) (q : Request)
      → KeepsCoherent (put {p = p} draws rounds fuel id q)
  unfolding put
  put-Coherent draws rounds fuel id q = when_writable-Coherent _ (record {
    at = λ s.
        (Keeps-bind (on_world (p.env.mkdir_all s.run_dir)) _ (on_world-Coherent _) (λ a.
            Keeps-bind (on_world (p.env.mkdir_all s.layer_dir)) _ (on_world-Coherent _) (λ b.
              Keeps-bind (choose_layer_id draws rounds id) _
                (choose_layer_id-Coherent draws rounds id)
                (λ chosen. put_at-Coherent fuel chosen q)))).at
          s;
  })
