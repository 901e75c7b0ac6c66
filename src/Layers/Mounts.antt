-- ===== src/Layers/Mounts.antt =====
-- The mount information of layers.go: loadMounts, saveMounts, Save, Mounted, Mount and Unmount.
use containers_storage.Prelude.{
  ℕ, Bool, true, false, not, ◌&&◌, ◌||◌, Option, none, some, List, [], ◌∷◌, Str, str_eq,
  if◌then◌else◌,
}
use containers_storage.Prelude.GoMap
use containers_storage.Prelude.GoMap.{GoMap}
use containers_storage.Prelude.Heap.{Heap, write}
use containers_storage.Prelude.Int.{ℤ, pos, ◌-ℤ◌, ltb_ℤ}
use containers_storage.Prelude.Exec.{
  malformed, not_locked, os_error, Result, ok, fails, panics, diverges, Exec, pure, or_fail, ◌>>=◌,
  ◌>>◌,
}
use containers_storage.Env.{FileRead, contents, missing, unreadable}
use containers_storage.Layers.{
  Layer, LayerMountPoint, LayerPlatform, LayerStore, is_not_exist, on_world, in_world, afterwards,
  layer_at, modify, mounts_path, layers_path, lookup, with_layer, when_writable, layers_of,
}

-- r.mountsLockfile.Lock() or RLock(), and Unlock() when the method returns
abbrev pub holding_mounts :
    {p : LayerPlatform} {A : Type 0}
    → (p.env.World → p.env.World)
    → Exec (LayerStore p) A
    → Exec (LayerStore p) A
holding_mounts {p} acquire m s =
    if s.has_mounts_lock then afterwards p.mounts.unlock m (in_world acquire s) else (panics, s)

abbrev pub unmounted : Layer → Layer
unmounted l = record l { mount_point = []; mount_count = pos 0 }

-- for _, layer := range r.layers { layer.MountPoint = ""; layer.MountCount = 0 }
unfoldable pub clear_mounts : List ℕ → Heap Layer → Heap Layer
clear_mounts [] h = h
clear_mounts (r ∷ rs) h = clear_mounts rs (write h r (unmounted (h.cell r)))

-- The mounts that are worth writing down.
unfoldable pub mounts_of : List Layer → List LayerMountPoint
mounts_of [] = []
mounts_of (l ∷ ls) =
    let rest = mounts_of ls in
    if not (str_eq l.mount_point []) && ltb_ℤ (pos 0) l.mount_count
    then record { id = l.id; mount_point = l.mount_point; mount_count = l.mount_count } ∷ rest
    else rest

abbrev pub let_go : Result (Unit {0}) → Bool
let_go (ok u) = true
let_go (fails e) = is_not_exist e
let_go panics = false
let_go diverges = false

module _ {p : LayerPlatform} where
  -- One mount of the file is put back, where its layer is found.
  unfoldable pub restore_mount :
      LayerMountPoint → Option ℕ → LayerStore p × GoMap ℕ → LayerStore p × GoMap ℕ
  restore_mount m none (s, mounts) = (s, mounts)
  restore_mount m (some r) (s, mounts) = (
    modify s r (record (layer_at s r) { mount_point = m.mount_point; mount_count = m.mount_count }),
    GoMap.put mounts m.mount_point r,
  )

  unfoldable pub restore_mounts :
      List LayerMountPoint → LayerStore p × GoMap ℕ → LayerStore p × GoMap ℕ
  unfolding lookup restore_mount
  restore_mounts [] (s, mounts) = (s, mounts)
  restore_mounts (m ∷ ms) (s, mounts) =
      let found = if str_eq m.mount_point [] then none else lookup s m.id in
      restore_mounts ms (restore_mount m found (s, mounts))

  abbrev pub cleared : LayerStore p → LayerStore p
  cleared s = record s {
    tables = record s.tables { heap = clear_mounts s.tables.items s.tables.heap };
  }

  unfoldable pub load_mounts_data : Str → Exec (LayerStore p) (Unit {0})
  unfolding clear_mounts restore_mounts
  load_mounts_data content s =
      let (good, ms) = p.unmarshal_mounts content in
      let (t, mounts) = restore_mounts ms (cleared s, GoMap.empty) in
      if str_eq content [] || good
      then (ok tt, record t { bymount = mounts })
      else (fails malformed, record s { bymount = GoMap.empty })

  unfoldable pub load_mounts_read : FileRead → Exec (LayerStore p) (Unit {0})
  unfolding load_mounts_data
  load_mounts_read (contents content) s = load_mounts_data content s
  load_mounts_read missing s = load_mounts_data [] s
  load_mounts_read unreadable s = (fails os_error, s)

  unfoldable pub load_mounts : Exec (LayerStore p) (Unit {0})
  unfolding load_mounts_read
  load_mounts s = load_mounts_read (p.env.read_file s.world (mounts_path s)) s

  unfoldable pub save_mounts : Exec (LayerStore p) (Unit {0})
  unfolding mounts_of load_mounts layers_of
  save_mounts s =
      when_writable
        (λ t.
          if p.mounts.locked t.world
          then (do
            on_world (p.env.mkdir_all (p.env.dir_of (mounts_path t)))
            written ← or_fail (p.marshal_mounts (mounts_of (layers_of t))) os_error
            on_world (p.env.write_file (mounts_path t) written)
            load_mounts)
              t
          else (fails not_locked, t))
        s

  unfoldable pub save_layers : Exec (LayerStore p) (Unit {0})
  unfolding layers_of
  save_layers s =
      when_writable
        (λ t.
          if p.env.locked t.world
          then (do
            on_world (p.env.mkdir_all (p.env.dir_of (layers_path t)))
            written ← or_fail (p.marshal (layers_of t)) os_error
            afterwards p.env.touch (on_world (p.env.write_file (layers_path t) written)))
              t
          else (fails not_locked, t))
        s

  unfoldable pub save : Exec (LayerStore p) (Unit {0})
  unfolding save_layers save_mounts
  save = holding_mounts p.mounts.lock (afterwards p.mounts.touch (do save_layers; save_mounts))

  -- if modified, err := Modified(); modified || err != nil { loadMounts }
  unfoldable pub load_if_modified : Result Bool → Exec (LayerStore p) (Unit {0})
  unfolding load_mounts
  load_if_modified (ok true) s = load_mounts s
  load_if_modified (ok false) s = (ok tt, s)
  load_if_modified (fails e) s = load_mounts s
  load_if_modified panics s = (panics, s)
  load_if_modified diverges s = (diverges, s)

  unfoldable pub reload_mounts : Exec (LayerStore p) (Unit {0})
  unfolding load_if_modified
  reload_mounts s =
      let (r, w) = p.mounts.modified s.world in load_if_modified r (record s { world = w })

  unfoldable pub mounted : Str → Exec (LayerStore p) ℤ
  unfolding reload_mounts lookup
  mounted id = when_writable (
      holding_mounts p.mounts.rlock (do
        reload_mounts
        λ s. with_layer (lookup s id) (λ r t. (ok (layer_at t r).mount_count, t)) s))

  -- delete(r.bymount, layer.MountPoint), unless that is empty
  abbrev pub unlist_mount : LayerStore p → ℕ → GoMap ℕ
  unlist_mount s r =
      if str_eq (layer_at s r).mount_point []
      then s.bymount
      else GoMap.del s.bymount (layer_at s r).mount_point

  abbrev pub with_count : LayerStore p → ℕ → ℤ → LayerStore p
  with_count s r n = modify s r (record (layer_at s r) { mount_count = n })

  -- The driver has let go of the layer.
  unfoldable pub record_unmount : ℕ → LayerStore p → LayerStore p
  record_unmount r s =
      let t = modify s r (record (layer_at s r) {
        mount_count = (layer_at s r).mount_count -ℤ pos 1;
        mount_point = [];
      }) in
      record t { bymount = unlist_mount s r }

  abbrev pub returning : {A : Type 0} → A → Exec (LayerStore p) (Unit {0}) → Exec (LayerStore p) A
  returning a m = do m; pure a

  abbrev pub put_error : Result (Unit {0}) → Exec (LayerStore p) Bool
  put_error (fails e) s = (fails e, s)
  put_error panics s = (panics, s)
  put_error diverges s = (diverges, s)
  put_error (ok u) s = (ok true, s)

  -- A count above one goes down; the driver lets go of a layer whose count does not.
  unfoldable pub unmount_forced : Str → ℕ → Exec (LayerStore p) Bool
  unfolding save_mounts record_unmount
  unmount_forced id r s =
      let n = (layer_at s r).mount_count in
      let (put, w) = p.driver.put id s.world in
      if ltb_ℤ (pos 1) n
      then returning true save_mounts (with_count s r (n -ℤ pos 1))
      else if let_go put
      then returning false save_mounts (record_unmount r (record s { world = w }))
      else put_error put (record s { world = w })

  unfoldable pub unmount_layer : Str → Bool → ℕ → Exec (LayerStore p) Bool
  unfolding unmount_forced
  unmount_layer id force r s = unmount_forced id r (if force then with_count s r (pos 1) else s)

  -- The layer by id or name, or by the path where it is mounted.
  unfoldable pub find_mounted : LayerStore p → Str → Option ℕ
  unfolding lookup
  find_mounted s id = elim (lookup s id) [
    | some r ↦ some r
    | none ↦ GoMap.get s.bymount (p.clean id)
  ]

  -- Whether the layer is still mounted.
  unfoldable pub unmount : Str → Bool → Exec (LayerStore p) Bool
  unfolding reload_mounts find_mounted unmount_layer
  unmount id force = when_writable (
      holding_mounts p.mounts.lock (do
        reload_mounts
        afterwards p.mounts.touch (λ s. with_layer (find_mounted s id) (unmount_layer id force) s)))
