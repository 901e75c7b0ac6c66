-- ===== src/Layers/Coherent.antt =====
-- When the tables of a layer store agree with its records, and what keeps them so.
pub mod Saving
pub mod Fields
pub mod Entries
pub mod Diffs
pub mod Puts
pub mod Calls
pub mod Sums
pub mod Loading
pub mod Reloading
use containers_storage.Prelude.{
  ℕ, ◌≡◌, refl, Bool, true, false, Option, none, some, List, [], ◌∷◌, arith, Str, str_eq, holds,
  Bool-cases, Option-cases, inl, inr, if◌then◌else◌, ◌||◌,
}
use containers_storage.Prelude.GoMap
use containers_storage.Prelude.GoMap.{GoMap}
use containers_storage.Prelude.Heap.{Heap}
use containers_storage.Prelude.Int.{pos}
use containers_storage.Prelude.Exec.{
  Error, store_is_read_only, Result, ok, fails, panics, diverges, Exec, continue, Keeps, Keeps-bind,
  not_locked, os_error, ◌>>=◌, ◌>>◌, or_fail, pure,
}
use containers_storage.Env.{FileRead, contents, missing, unreadable}
use containers_storage.Directory.Agrees.{Agrees, write_item-Agrees}
use containers_storage.Directory.Find.{find-holds}
use containers_storage.Layers.{
  Layer, LayerMountPoint, LayerPlatform, LayerStore, on_world, in_world, afterwards, layer_at,
  modify, lookup, with_layer, when_writable, mounts_path, layers_path, layers_of,
}
use containers_storage.Layers.Mounts.{
  holding_mounts, unmounted, clear_mounts, cleared, restore_mount, restore_mounts, load_mounts_data,
  load_mounts_read, load_mounts, save_mounts, save_layers, save, load_if_modified, reload_mounts,
  mounts_of,
}
use containers_storage.Layers.Filed.{Filed, write_item-Filed}

pub record Coherent {p : LayerPlatform} (s : LayerStore p) : Type 0 where
  pub tables : Agrees s.tables
  pub compressed : Filed (λ l. l.compressed_digest) s.tables s.bycompressedsum
  pub uncompressed : Filed (λ l. l.uncompressed_digest) s.tables s.byuncompressedsum

-- An action takes a coherent store to a coherent store, whatever it returns.
abbrev pub KeepsCoherent : {p : LayerPlatform} {A : Type 0} → Exec (LayerStore p) A → Type 0
KeepsCoherent m = Keeps Coherent m

module _ {p : LayerPlatform} where
  -- The world and the table of mount points are not looked at.
  pub Coherent-world :
      (s : LayerStore p) (w : p.env.World) → Coherent s → Coherent (record s { world = w })
  Coherent-world s w v = record {
    tables = v.tables;
    compressed = v.compressed;
    uncompressed = v.uncompressed;
  }

  pub Coherent-bymount :
      (s : LayerStore p) (m : GoMap ℕ) → Coherent s → Coherent (record s { bymount = m })
  Coherent-bymount s m v = record {
    tables = v.tables;
    compressed = v.compressed;
    uncompressed = v.uncompressed;
  }

  -- A record may change in all but its id, its names and its digests.
  pub modify-Coherent :
      (s : LayerStore p) (r : ℕ) (l : Layer)
      → l.id ≡ (layer_at s r).id
      → l.names ≡ (layer_at s r).names
      → l.compressed_digest ≡ (layer_at s r).compressed_digest
      → l.uncompressed_digest ≡ (layer_at s r).uncompressed_digest
      → Coherent s
      → Coherent (modify s r l)
  modify-Coherent s r l id names compressed uncompressed v = record {
    tables = write_item-Agrees s.tables r l id names v.tables;
    compressed = write_item-Filed s.tables s.bycompressedsum r l id compressed v.compressed;
    uncompressed = write_item-Filed s.tables s.byuncompressedsum r l id uncompressed v.uncompressed;
  }

  pub lookup-holds :
      (s : LayerStore p) (id : Str) (r : ℕ)
      → Coherent s
      → lookup s id ≡ some r
      → holds r s.tables.items ≡ true
  unfolding lookup
  lookup-holds s id r v h = find-holds s.tables v.tables id r h

  pub on_world-Coherent : {A : Type 0} (m : Exec p.env.World A) → KeepsCoherent (on_world {p = p} m)
  on_world-Coherent m = record { at = λ s v. Coherent-world s (m s.world).1 v }

  pub afterwards-Coherent :
      {A : Type 0} (f : p.env.World → p.env.World) (m : Exec (LayerStore p) A)
      → KeepsCoherent m
      → KeepsCoherent (afterwards {p = p} f m)
  afterwards-Coherent f m k = record {
    at = λ s v. Coherent-world (m s).1 (f (m s).1.world) (k.at s v);
  }

  pub if-Coherent :
      {A : Type 0} (test : LayerStore p → Bool) (m n : Exec (LayerStore p) A)
      → KeepsCoherent m
      → KeepsCoherent n
      → KeepsCoherent (λ s. if test s then m s else n s)
  if-Coherent test m n km kn = record {
    at = λ s v. elim (Bool-cases (test s)) [ inl e ↦ rw e (km.at s v) | inr e ↦ rw e (kn.at s v) ];
  }

  -- What returns without a change.
  pub return-Coherent : {A : Type 0} (r : Result A) → KeepsCoherent {p = p} (λ s. (r, s))
  return-Coherent r = record { at = λ s v. v }

  pub holding-Coherent :
      {A : Type 0} (f : p.env.World → p.env.World) (m : Exec (LayerStore p) A)
      → KeepsCoherent m
      → KeepsCoherent (holding_mounts {p = p} f m)
  holding-Coherent f m k =
      if-Coherent (λ s. s.has_mounts_lock) (λ s. afterwards p.mounts.unlock m (in_world f s))
        (λ s. (panics, s))
        (record {
          at = λ s v.
              (afterwards-Coherent p.mounts.unlock m k).at _ (Coherent-world s (f s.world) v);
        })
        (return-Coherent panics)

  pub when_writable-Coherent :
      {A : Type 0} (m : Exec (LayerStore p) A)
      → KeepsCoherent m
      → KeepsCoherent (when_writable {p = p} m)
  when_writable-Coherent m k =
      if-Coherent (λ s. p.env.read_write s.world) m (λ s. (fails store_is_read_only, s)) k
        (return-Coherent (fails store_is_read_only))

  -- An action on the layer that is found.
  pub with_layer-Coherent :
      {A : Type 0} (id : Str) (f : ℕ → Exec (LayerStore p) A)
      → ((r : ℕ) (s : LayerStore p)
          → holds r s.tables.items ≡ true
          → Coherent s
          → Coherent (f r s).1)
      → KeepsCoherent (λ s. with_layer (lookup s id) f s)
  with_layer-Coherent id f k = record {
    at = λ s v. elim (Option-cases (lookup s id)) [
      | inl e ↦ rw e v
      | inr (r, e) ↦ rw e (k r s (lookup-holds s id r v e) v)
    ];
  }

  pub or_fail-Coherent :
      {A : Type 0} (o : Option A) (e : Error) → KeepsCoherent {p = p} (or_fail o e)
  or_fail-Coherent none e = record { at = λ s v. v }
  or_fail-Coherent (some a) e = record { at = λ s v. v }
