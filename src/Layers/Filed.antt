-- ===== src/Layers/Filed.antt =====
-- What the tables of digests of layers.go hold, and what each change of them does to that.
use containers_storage.Layers.Filing.{
  distinct-cut_id, distinct-snoc, distinct-without_id, elem-cut_id, elem-without_id,
  ids_under-add_id, ids_under-cut_everywhere, ids_under-refiled, refiled,
}
use containers_storage.Prelude.{
  ℕ, ◌≡◌, ap, subst, true, false, not, ◌&&◌, none, List, [], ◌∷◌, arith, Str, str_eq, str_eq_iff,
  elem, elem-append, distinct, holds, holds-snoc, is_some, if◌then◌else◌,
}
use containers_storage.Prelude.GoMap
use containers_storage.Prelude.GoMap.{GoMap}
use containers_storage.TruncIndex.Interface.{IdIndex}
use containers_storage.Directory.{Tables, id_at, enter_item, forget_item, write_item}
use containers_storage.Directory.Agrees.{Agrees}
use containers_storage.Directory.Names.{SameButNames}
use containers_storage.Directory.Forget.{holds-forget_item}
use containers_storage.Layers.{Layer, layer_kind}
use containers_storage.Layers.Digests.{ids_under, cut_everywhere, update_digest_map}

-- Each listed layer is filed under its digest, and under no other; every id that is filed is that of a
-- layer, and is filed once under a digest.
pub record Filed {ix : IdIndex} (digest : Layer → Str) (t : Tables layer_kind ix)
    (m : GoMap (List Str)) : Type 0 where
  pub filed :
      (d : Str) (r : ℕ)
      → holds r t.items ≡ true
      → elem (id_at t r) (ids_under m d) ≡ not (str_eq d []) && str_eq (digest (t.heap.cell r)) d
  pub known : (d id : Str) → elem id (ids_under m d) ≡ true → is_some (GoMap.get t.byid id) ≡ true
  pub once : (d : Str) → distinct (ids_under m d) ≡ true

module _ {ix : IdIndex} {digest : Layer → Str} where
  pub write_item-Filed :
      (t : Tables layer_kind ix) (m : GoMap (List Str)) (r : ℕ) (l : Layer)
      → l.id ≡ id_at t r
      → digest l ≡ digest (t.heap.cell r)
      → Filed digest t m
      → Filed digest (write_item t r l) m
  write_item-Filed t m r l same_id same_digest v = record {
    filed = λ d q h. ground (arith, v.filed d q, same_id, same_digest);
    known = v.known;
    once = v.once;
  }

  pub enter_item-Filed :
      (l : Layer) (t : Tables layer_kind ix) (m : GoMap (List Str))
      → Agrees t
      → GoMap.get t.byid l.id ≡ none
      → digest l ≡ []
      → Filed digest t m
      → Filed digest (enter_item l t) m
  unfolding enter_item
  enter_item-Filed l t m a unused blank v = record {
    filed = λ d q h. ground (
      arith,
      v.filed d q,
      v.known d l.id,
      a.allocated q,
      holds-snoc q t.items t.heap.next,
      str_eq_iff [] d,
      str_eq_iff d [],
      blank,
    );
    known = λ d id h. ground (arith, v.known d id, GoMap.get-put t.byid l.id t.heap.next id);
    once = v.once;
  }

  pub forget_item-Filed :
      (r : ℕ) (t : Tables layer_kind ix) (m : GoMap (List Str))
      → Agrees t
      → holds r t.items ≡ true
      → Filed digest t m
      → Filed digest (forget_item r t) (cut_everywhere (id_at t r) m)
  unfolding forget_item
  forget_item-Filed r t m a live v = record {
    filed = λ d q h. ground (
      arith,
      v.filed d q,
      v.once d,
      holds-forget_item r t a live q,
      a.listed q,
      a.listed r,
      ids_under-cut_everywhere (id_at t r) m d,
      elem-cut_id (id_at t r) (id_at t q) (ids_under m d),
      str_eq_iff (id_at t r) (id_at t q),
    );
    known = λ d id h. ground (
      arith,
      v.known d id,
      v.once d,
      GoMap.get-del t.byid (id_at t r) id,
      ids_under-cut_everywhere (id_at t r) m d,
      elem-cut_id (id_at t r) id (ids_under m d),
    );
    once = λ d. ground (
      arith,
      v.once d,
      ids_under-cut_everywhere (id_at t r) m d,
      distinct-cut_id (id_at t r) (ids_under m d),
    );
  }

module _ {ix : IdIndex} {digest : Layer → Str} (t : Tables layer_kind ix) (m : GoMap (List Str))
    (r : ℕ) (new : Str) (a : Agrees t) (live : holds r t.items ≡ true) (v : Filed digest t m) where
  abbrev old_digest : Str
  old_digest = digest (t.heap.cell r)

  unfiled : (d : Str) → elem (id_at t r) (ids_under (refiled m old_digest (id_at t r)) d) ≡ false
  unfiled d = ground (
    arith,
    v.filed d r,
    ids_under-refiled m old_digest (id_at t r) d,
    elem-without_id (id_at t r) (id_at t r) (ids_under m d),
    str_eq_iff (id_at t r) (id_at t r),
    str_eq_iff old_digest d,
  )

  elem-updated :
      (d j : Str)
      → elem j (ids_under (update_digest_map m old_digest new (id_at t r)) d) ≡ (
          if str_eq (id_at t r) j
          then not (str_eq new []) && str_eq new d
          else elem j (ids_under m d))
  unfolding update_digest_map elem
  elem-updated d j = ground (
    arith,
    unfiled d,
    ids_under-add_id (refiled m old_digest (id_at t r)) new (id_at t r) d,
    ids_under-refiled m old_digest (id_at t r) d,
    elem-without_id (id_at t r) j (ids_under m d),
    elem-append j (ids_under (refiled m old_digest (id_at t r)) d) (id_at t r ∷ []),
    str_eq_iff (id_at t r) j,
  )

  -- Filing a layer under a new digest, and its record with that digest, keep the table in order.
  pub update_digest_map-Filed :
      (l : Layer)
      → l.id ≡ id_at t r
      → digest l ≡ new
      → Filed digest (write_item t r l) (update_digest_map m old_digest new (id_at t r))
  update_digest_map-Filed l same_id is_new = record {
    filed = λ d q h. ground (
      arith,
      elem-updated d (id_at t q),
      v.filed d q,
      a.listed q,
      a.listed r,
      same_id,
      is_new,
      str_eq_iff (id_at t r) (id_at t q),
      str_eq_iff new d,
      str_eq_iff new [],
      str_eq_iff d [],
    );
    known = λ d id h.
        ground (arith, elem-updated d id, v.known d id, a.listed r, str_eq_iff (id_at t r) id);
    once = λ d. once_updated d;
  }
    where
      once_refiled : (d : Str) → distinct (ids_under (refiled m old_digest (id_at t r)) d) ≡ true
      once_refiled d = ground (
        arith,
        v.once d,
        ids_under-refiled m old_digest (id_at t r) d,
        distinct-without_id (id_at t r) (ids_under m d),
      )

      once_updated :
          (d : Str) → distinct (ids_under (update_digest_map m old_digest new (id_at t r)) d) ≡ true
      once_updated d =
          unfold update_digest_map in
          ground (
            arith,
            once_refiled d,
            unfiled d,
            ids_under-add_id (refiled m old_digest (id_at t r)) new (id_at t r) d,
            distinct-snoc (ids_under (refiled m old_digest (id_at t r)) d) (id_at t r),
          )

-- A change of names leaves the digests filed as they are.
pub SameButNames-Filed :
    {ix : IdIndex} {digest : Layer → Str}
    → ((l : Layer) (ns : List Str) → digest (record l { names = ns }) ≡ digest l)
    → (s t : Tables layer_kind ix) (m : GoMap (List Str)) → SameButNames s t
    → Filed digest s m
    → Filed digest t m
SameButNames-Filed {ix} {digest} blind s t m same v = record {
  filed = λ d q h.
      rw (same.cells q, blind (s.heap.cell q) (t.heap.cell q).names)
        (v.filed d q (subst (λ (u : List ℕ). holds q u ≡ true) same_items h));
  known = λ d id h. rw same_byid (v.known d id h);
  once = v.once;
}
  where
    same_items : t.items ≡ s.items
    same_items = ap (λ (u : Tables layer_kind ix). u.items) same.tables

    same_byid : t.byid ≡ s.byid
    same_byid = ap (λ (u : Tables layer_kind ix). u.byid) same.tables
