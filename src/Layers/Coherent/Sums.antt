-- ===== src/Layers/Coherent/Sums.antt =====
-- The tables of digests that Load of layers.go builds from the records of a file.
use containers_storage.Prelude.{
  ℕ, ◌≡◌, refl, subst, ◌∙◌, Bool, true, false, not, ◌&&◌, ◌||◌, List, [], ◌∷◌, map, arith, Str,
  str_eq, str_eq_iff, elem, elem-append, distinct, holds,
}
use containers_storage.Prelude.GoMap
use containers_storage.Prelude.GoMap.{GoMap}
use containers_storage.Prelude.Heap.{Heap, alloc}
use containers_storage.TruncIndex.Interface.{IdIndex}
use containers_storage.Directory.{Tables, alloc_items, rebuild_tables, id_at}
use containers_storage.Directory.Alloc.{ids_in, names_distinct, elem-ids, first, ids-alloc_items}
use containers_storage.Directory.Rebuild.{load_items_blind, load_items_frame, indexed, built, start}
use containers_storage.Layers.{Layer, layer_kind}
use containers_storage.Layers.Digests.{ids_under, add_id}
use containers_storage.Layers.Load.{sums_of}
use containers_storage.Layers.Filed.{Filed}
use containers_storage.Layers.Filing.{ids_under-add_id, distinct-snoc}

abbrev layer_ids : List Layer → List Str
layer_ids ls = ids_in (λ l. l.id) ls

module _ (digest : Layer → Str) where
  -- One of the records has the id and the digest, which is not empty.
  filed_in : Str → Str → List Layer → Bool
  filed_in d id [] = false
  filed_in d id (l ∷ ls) =
      (str_eq l.id id && (not (str_eq d []) && str_eq (digest l) d)) || filed_in d id ls

  elem-filed_in :
      (d id : Str) (ls : List Layer) → filed_in d id ls ≡ true → elem id (layer_ids ls) ≡ true
  unfolding filed_in elem
  elem-filed_in d id [] h = cc
  elem-filed_in d id (l ∷ ls) h = ground (arith, elem-filed_in d id ls)

  elem-sums_of :
      (d id : Str) (ls : List Layer) (m : GoMap (List Str))
      → elem id (ids_under (sums_of digest ls m) d) ≡ elem id (ids_under m d) || filed_in d id ls
  unfolding sums_of filed_in elem
  elem-sums_of d id [] m = ground arith
  elem-sums_of d id (l ∷ ls) m = ground (
    arith,
    elem-sums_of d id ls (add_id m (digest l) l.id),
    ids_under-add_id m (digest l) l.id d,
    elem-append id (ids_under m d) (l.id ∷ []),
    str_eq_iff (digest l) d,
  )

  distinct-sums_of :
      (ls : List Layer) (m : GoMap (List Str))
      → distinct (layer_ids ls) ≡ true
      → ((d id : Str) → elem id (ids_under m d) ≡ true → elem id (layer_ids ls) ≡ false)
      → ((d : Str) → distinct (ids_under m d) ≡ true)
      → (d : Str) → distinct (ids_under (sums_of digest ls m) d) ≡ true
  unfolding sums_of elem distinct
  distinct-sums_of [] m unique fresh once d = once d
  distinct-sums_of (l ∷ ls) m unique fresh once d =
      distinct-sums_of ls (add_id m (digest l) l.id) (ground arith)
        (λ e id h. ground (
          arith,
          fresh e id,
          ids_under-add_id m (digest l) l.id e,
          elem-append id (ids_under m e) (l.id ∷ []),
          str_eq_iff l.id id,
        ))
        (λ e. ground (
          arith,
          once e,
          fresh e l.id,
          ids_under-add_id m (digest l) l.id e,
          distinct-snoc (ids_under m e) l.id,
          str_eq_iff l.id l.id,
        ))
        d

  -- A record with an id of its own is filed under its digest alone.
  filed_in-cell :
      (h : Heap Layer) (ls : List Layer) (d : Str) (q : ℕ)
      → distinct (layer_ids ls) ≡ true
      → holds q (alloc_items h ls).1 ≡ true
      → filed_in d ((alloc_items h ls).0.cell q).id ls
        ≡ not (str_eq d []) && str_eq (digest ((alloc_items h ls).0.cell q)) d
  unfolding alloc_items holds filed_in distinct
  filed_in-cell h [] d q unique e = cc
  filed_in-cell h (l ∷ ls) d q unique e = ground (
    arith,
    filed_in-cell (alloc h l) ls d q,
    first h l ls,
    elem-ids (λ (c : Layer). c.id) (alloc h l) ls q,
    elem-filed_in d l.id ls,
    str_eq_iff l.id ((alloc_items (alloc h l) ls).0.cell q).id,
    str_eq_iff l.id l.id,
  )

module _ (digest : Layer → Str)
    (blind : (l : Layer) (ns : List Str) → digest (record l { names = ns }) ≡ digest l)
    (ix : IdIndex) (h : Heap Layer) (ls : List Layer) (unique : distinct (layer_ids ls) ≡ true)
    (once : names_distinct (λ l. l.names) ls ≡ true) where
  abbrev loaded : Tables layer_kind ix
  loaded = built layer_kind ix h ls unique once

  refs_loaded : loaded.items ≡ (alloc_items h ls).1
  refs_loaded =
      (load_items_frame (alloc_items h ls).1 (start layer_kind ix h ls unique once) false).0

  id-loaded : (q : ℕ) → id_at loaded q ≡ ((alloc_items h ls).0.cell q).id
  id-loaded q =
      load_items_blind (λ (l : Layer). l.id) (λ l ns. refl) (alloc_items h ls).1
        (start layer_kind ix h ls unique once) false q

  digest-loaded : (q : ℕ) → digest (loaded.heap.cell q) ≡ digest ((alloc_items h ls).0.cell q)
  digest-loaded q =
      load_items_blind digest blind (alloc_items h ls).1 (start layer_kind ix h ls unique once)
        false q

  ids-loaded : map (id_at loaded) loaded.items ≡ layer_ids ls
  ids-loaded =
      rw refs_loaded (map_same (alloc_items h ls).1 ∙ ids-alloc_items (λ (l : Layer). l.id) h ls)
    where
      map_same :
          (rs : List ℕ) → map (id_at loaded) rs ≡ map (λ r. ((alloc_items h ls).0.cell r).id) rs
      map_same [] = refl
      map_same (r ∷ rs) = cc (id-loaded r, map_same rs)

  -- The table that Load builds files each layer under its digest.
  pub rebuilt-Filed :
      Filed digest
        (rebuild_tables {k = layer_kind} {ix = ix} h ls).0
        (sums_of digest ls GoMap.empty)
  unfolding rebuild_tables ids_under GoMap.get elem distinct
  rebuilt-Filed = record {
    filed = λ d q live.
        rw (digest-loaded q, id-loaded q)
          (elem-sums_of digest d ((alloc_items h ls).0.cell q).id ls GoMap.empty
            ∙ filed_in-cell digest h ls d q unique
                (subst (λ (u : List ℕ). holds q u ≡ true) refs_loaded live));
    known = λ d id e. ground (
      arith,
      elem-sums_of digest d id ls GoMap.empty,
      elem-filed_in digest d id ls,
      indexed layer_kind ix h ls unique once id,
      ids-loaded,
    );
    once = distinct-sums_of digest ls GoMap.empty unique (λ d id e. cc) (λ d. refl);
  }
