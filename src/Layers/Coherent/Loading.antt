-- ===== src/Layers/Coherent/Loading.antt =====
-- Load of layers.go makes tables that agree, where the file that it reads is whole.
use containers_storage.Prelude.{
  ℕ, zero, suc, ◌≡◌, refl, ap, ◌∙◌, Bool, true, false, not, ◌&&◌, ◌||◌, List, [], ◌∷◌, map, length,
  drop, arith, Str, str_eq, distinct, Bool-cases, inl, inr, if◌then◌else◌,
}
use containers_storage.Prelude.Exec.{malformed, Result, ok, fails, panics, diverges, Keeps-bind}
use containers_storage.Env.{FileRead, contents, missing, unreadable}
use containers_storage.Directory.{rebuild_tables, load_items, alloc_items}
use containers_storage.Directory.Alloc.{ids_in, names_distinct}
use containers_storage.Directory.Rebuild.{rebuild-Agrees}
use containers_storage.Layers.{
  Layer, LayerPlatform, LayerStore, layer_kind, in_world, layer_at, layers_path,
}
use containers_storage.Layers.Mounts.{load_mounts}
use containers_storage.Layers.Delete.{delete_internal}
use containers_storage.Layers.Load.{
  sums_of, mark_read_only, reserve_labels, with_tables, is_incomplete, at_first, cleaned, clean_up,
  save_or, finish_load, load_marked, load_layers, load_malformed, load_data, load_read, load,
}
use containers_storage.Layers.Coherent.{
  KeepsCoherent, Coherent, Coherent-world, if-Coherent, holding-Coherent,
}
use containers_storage.Layers.Coherent.Saving.{load_mounts-Coherent, save_layers-Coherent}
use containers_storage.Layers.Coherent.Entries.{delete_internal-Coherent}
use containers_storage.Layers.Coherent.Sums.{rebuilt-Filed}

-- What the tables can be built from: records with different ids, none of which names itself twice,
-- and, where decoding fails, no record. It is a condition on one file, not on the decoder.
abbrev pub Decodes : Bool × List Layer → Type 0
Decodes (good, ls) =
    (distinct (ids_in (λ (l : Layer). l.id) ls) ≡ true)
    × (names_distinct (λ (l : Layer). l.names) ls ≡ true)
    × (good ≡ false → ls ≡ [])

-- A file, as it is read, decodes to such records; no file decodes as an empty one, and a file that
-- cannot be read is not decoded.
unfoldable pub Intact : (Str → Bool × List Layer) → FileRead → Type 0
Intact unmarshal (contents content) = Decodes (unmarshal content)
Intact unmarshal missing = Decodes (unmarshal [])
Intact unmarshal unreadable = Unit

-- Marking the records does not touch their ids and names.
ids_marked :
    (ro : Bool) (ls : List Layer)
    → ids_in (λ (l : Layer). l.id) (map (mark_read_only ro) ls) ≡ ids_in (λ (l : Layer). l.id) ls
ids_marked ro [] = refl
ids_marked ro (l ∷ ls) = ap (◌∷◌ l.id) (ids_marked ro ls)

names_marked :
    (ro : Bool) (ls : List Layer)
    → names_distinct (λ (l : Layer). l.names) (map (mark_read_only ro) ls)
      ≡ names_distinct (λ (l : Layer). l.names) ls
unfolding names_distinct
names_marked ro [] = refl
names_marked ro (l ∷ ls) = ap (λ b. distinct l.names && b) (names_marked ro ls)

module _ {p : LayerPlatform} where
  pub rebuilt-Coherent :
      (s : LayerStore p) (ls : List Layer)
      → distinct (ids_in (λ (l : Layer). l.id) ls) ≡ true
      → names_distinct (λ (l : Layer). l.names) ls ≡ true
      → Coherent (with_tables (rebuild_tables s.tables.heap ls).0 ls s)
  rebuilt-Coherent s ls unique once = record {
    tables = rebuild-Agrees layer_kind p.index s.tables.heap ls unique once;
    compressed =
        rebuilt-Filed (λ l. l.compressed_digest) (λ l ns. refl) p.index s.tables.heap ls unique
          once;
    uncompressed =
        rebuilt-Filed (λ l. l.uncompressed_digest) (λ l ns. refl) p.index s.tables.heap ls unique
          once;
  }

  cleaned-Coherent :
      (r : Result (Unit {0})) (need : Bool) (t : LayerStore p)
      (onward : (Result (Unit {0}) × Bool) × LayerStore p)
      → Coherent t
      → Coherent onward.1
      → Coherent (cleaned r need t onward).1
  cleaned-Coherent (ok u) need t onward v w = w
  cleaned-Coherent (fails e) need t onward v w = v
  cleaned-Coherent panics need t onward v w = v
  cleaned-Coherent diverges need t onward v w = v

  at_first-Coherent :
      (rs : List ℕ) (stop : (Result (Unit {0}) × Bool) × LayerStore p)
      (go : ℕ → (Result (Unit {0}) × Bool) × LayerStore p)
      → Coherent stop.1
      → ((r : ℕ) → Coherent (go r).1)
      → Coherent (at_first rs stop go).1
  at_first-Coherent [] stop go v w = v
  at_first-Coherent (r ∷ rs) stop go v w = w r

  clean_up-Coherent :
      (rounds j : ℕ) (array : List ℕ) (need : Bool) (s : LayerStore p)
      → Coherent s
      → Coherent (clean_up rounds j array need s).1
  unfolding clean_up
  clean_up-Coherent zero j array need s v = v
  clean_up-Coherent (suc rounds) j array need s v =
      at_first-Coherent (drop j array) ((ok tt, need), s) _ v
        (λ r.
          let deleted = delete_internal (layer_at s r).id s in
          let w = (delete_internal-Coherent (layer_at s r).id).at s v in
          elim (Bool-cases (is_incomplete (layer_at s r))) [
            | inl e ↦ rw e (
                cleaned-Coherent deleted.0 need deleted.1 _ w
                  (clean_up-Coherent rounds (suc j) _ true deleted.1 w))
            | inr e ↦ rw e (clean_up-Coherent rounds (suc j) array need s v)
          ])

  save_or-Coherent :
      (need : Bool) (r : Result (Unit {0})) (s : LayerStore p)
      → Coherent s
      → Coherent (save_or need r s).1
  save_or-Coherent true r s v = save_layers-Coherent.at s v
  save_or-Coherent false r s v = v

  finish_load-Coherent : (need : Bool) → KeepsCoherent (finish_load {p = p} need)
  unfolding finish_load
  finish_load-Coherent need = holding-Coherent p.mounts.rlock _ (
      Keeps-bind load_mounts _ load_mounts-Coherent (λ a.
        if-Coherent (λ s. p.env.locked s.world) _ _
          (record {
            at = λ s v.
                save_or-Coherent _ _ _
                  (clean_up-Coherent (length s.tables.items) 0 s.tables.items need s v);
          })
          (record { at = λ s v. save_or-Coherent need (ok tt) s v })))

  load_marked-Coherent :
      (writable : Bool) (ls : List Layer) (s : LayerStore p)
      → distinct (ids_in (λ (l : Layer). l.id) ls) ≡ true
      → names_distinct (λ (l : Layer). l.names) ls ≡ true
      → Coherent s
      → Coherent (load_marked writable ls s).1
  unfolding load_marked
  load_marked-Coherent writable ls s unique once v =
      let t = in_world (reserve_labels p.labels ls) s in
      let need = (rebuild_tables {k = layer_kind} {ix = p.index} s.tables.heap ls).1 in
      let built = rebuilt-Coherent t ls unique once in
      elim (Bool-cases (need && not (writable && p.env.locked t.world))) [
        | inl e ↦ rw e (Coherent-world s _ v)
        | inr e ↦ rw e (opened writable need built)
      ]
    where
      opened :
          (w need : Bool) {u : LayerStore p}
          → Coherent u
          → Coherent (if w then finish_load need u else (ok tt, u)).1
      opened true need c = (finish_load-Coherent need).at _ c
      opened false need c = c

  load_layers-Coherent :
      (ls : List Layer) (s : LayerStore p)
      → distinct (ids_in (λ (l : Layer). l.id) ls) ≡ true
      → names_distinct (λ (l : Layer). l.names) ls ≡ true
      → Coherent s
      → Coherent (load_layers ls s).1
  unfolding load_layers
  load_layers-Coherent ls s unique once v =
      let writable = p.env.read_write s.world in
      load_marked-Coherent writable _ s (ap distinct (ids_marked (not writable) ls) ∙ unique)
        (names_marked (not writable) ls ∙ once) v

  load_malformed-Coherent :
      (ls : List Layer) (s : LayerStore p) → ls ≡ [] → Coherent (load_malformed ls s).1
  unfolding load_malformed
  load_malformed-Coherent ls s e = rw e (
      opened (p.env.read_write s.world) (
        unfold rebuild_tables load_items alloc_items sums_of distinct names_distinct in
        rebuilt-Coherent s [] refl refl))
    where
      opened :
          (w : Bool) {u : LayerStore p}
          → Coherent u
          → Coherent (if w then finish_load false u else (fails malformed, u)).1
      opened true c = (finish_load-Coherent false).at _ c
      opened false c = c

module _ {p : LayerPlatform} where
  cleared-Coherent :
      (s : LayerStore p)
      → Coherent s
      → Coherent (if p.env.read_write s.world then in_world p.labels.clear s else s)
  cleared-Coherent s v = elim (Bool-cases (p.env.read_write s.world)) [
    | inl e ↦ rw e (Coherent-world s _ v)
    | inr e ↦ rw e v
  ]

  load_data-Coherent :
      (content : Str) (s : LayerStore p)
      → Decodes (p.unmarshal content)
      → Coherent s
      → Coherent (load_data content s).1
  unfolding load_data
  load_data-Coherent content s decodes v =
      let (unique, once, partial) = decodes in
      let t = if p.env.read_write s.world then in_world p.labels.clear s else s in
      elim (Bool-cases (str_eq content [] || (p.unmarshal content).0)) [
        | inl e ↦
            rw e (load_layers-Coherent (p.unmarshal content).1 t unique once (cleared-Coherent s v))
        | inr e ↦ rw e (load_malformed-Coherent (p.unmarshal content).1 t (partial (ground arith)))
      ]

  load_read-Coherent :
      (f : FileRead) (s : LayerStore p)
      → Intact p.unmarshal f
      → Coherent s
      → Coherent (load_read f s).1
  unfolding load_read Intact
  load_read-Coherent (contents content) s whole v = load_data-Coherent content s whole v
  load_read-Coherent missing s whole v = load_data-Coherent [] s whole v
  load_read-Coherent unreadable s whole v = v

  pub load-Coherent :
      (s : LayerStore p)
      → Intact p.unmarshal (p.env.read_file s.world (layers_path s))
      → Coherent s
      → Coherent (load s).1
  unfolding load
  load-Coherent s whole v = load_read-Coherent (p.env.read_file s.world (layers_path s)) s whole v
