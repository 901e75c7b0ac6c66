-- ===== src/Layers/Filing.antt =====
-- What each change of a table of digests of layers.go does to its lists.
use containers_storage.Prelude.{
  ◌≡◌, refl, true, false, not, ◌&&◌, List, [], ◌∷◌, ◌++◌, arith, Str, str_eq, str_eq_iff, elem,
  elem-append, distinct, Bool-cases, inl, inr, if◌then◌else◌,
}
use containers_storage.Prelude.GoMap
use containers_storage.Prelude.GoMap.{GoMap}
use containers_storage.Layers.Digests.{ids_under, add_id, cut_id, cut_everywhere, without_id}

pub elem-cut_id :
    (id j : Str) (xs : List Str)
    → distinct xs ≡ true
    → elem j (cut_id id xs) ≡ elem j xs && not (str_eq id j)
unfolding cut_id elem distinct
elem-cut_id id j [] d = refl
elem-cut_id id j (x ∷ xs) d =
    ground (arith, elem-cut_id id j xs, str_eq_iff x id, str_eq_iff x j, str_eq_iff id j)

pub distinct-cut_id :
    (id : Str) (xs : List Str) → distinct xs ≡ true → distinct (cut_id id xs) ≡ true
unfolding cut_id distinct
distinct-cut_id id [] d = refl
distinct-cut_id id (x ∷ xs) d = ground (arith, distinct-cut_id id xs, elem-cut_id id x xs)

pub elem-without_id :
    (id j : Str) (xs : List Str) → elem j (without_id id xs) ≡ elem j xs && not (str_eq id j)
unfolding without_id elem
elem-without_id id j [] = refl
elem-without_id id j (x ∷ xs) =
    ground (arith, elem-without_id id j xs, str_eq_iff x id, str_eq_iff x j, str_eq_iff id j)

pub distinct-without_id :
    (id : Str) (xs : List Str) → distinct xs ≡ true → distinct (without_id id xs) ≡ true
unfolding without_id distinct
distinct-without_id id [] d = refl
distinct-without_id id (x ∷ xs) d =
    ground (arith, distinct-without_id id xs, elem-without_id id x xs)

pub distinct-snoc :
    (xs : List Str) (id : Str)
    → distinct xs ≡ true
    → elem id xs ≡ false
    → distinct (xs ++ id ∷ []) ≡ true
unfolding distinct elem
distinct-snoc [] id d h = refl
distinct-snoc (x ∷ xs) id d h =
    ground
      (arith, distinct-snoc xs id, elem-append x xs (id ∷ []), str_eq_iff x id, str_eq_iff id x)

pub ids_under-cut_everywhere :
    (id : Str) (m : GoMap (List Str)) (d : Str)
    → ids_under (cut_everywhere id m) d ≡ cut_id id (ids_under m d)
unfolding ids_under cut_everywhere GoMap.get cut_id
ids_under-cut_everywhere id [] d = refl
ids_under-cut_everywhere id ((e, ids) ∷ m) d = ground (arith, ids_under-cut_everywhere id m d)

pub ids_under-add_id :
    (m : GoMap (List Str)) (new id d : Str)
    → ids_under (add_id m new id) d
      ≡ (if not (str_eq new []) && str_eq new d then ids_under m d ++ id ∷ [] else ids_under m d)
unfolding ids_under add_id
ids_under-add_id m new id d =
    ground (arith, GoMap.get-put m new (ids_under m new ++ id ∷ []) d, str_eq_iff new d)

-- The table without the id under the old digest.
abbrev pub refiled : GoMap (List Str) → Str → Str → GoMap (List Str)
refiled m old id = if str_eq old [] then m else elim (without_id id (ids_under m old)) [
  | [] ↦ GoMap.del m old
  | j ∷ ids ↦ GoMap.put m old (j ∷ ids)
]

pub ids_under-refiled :
    (m : GoMap (List Str)) (old id d : Str)
    → ids_under (refiled m old id) d ≡ (
        if not (str_eq old []) && str_eq old d
        then without_id id (ids_under m d)
        else ids_under m d)
unfolding ids_under
ids_under-refiled m old id d = elim (Bool-cases (str_eq old [])) [
  | inl e ↦ rw e refl
  | inr e ↦ rw e (put_or_del (without_id id (ids_under m old)) refl)
]
  where
    put_or_del :
        (w : List Str)
        → w ≡ without_id id (ids_under m old)
        → ids_under (elim w [ [] ↦ GoMap.del m old | j ∷ ids ↦ GoMap.put m old (j ∷ ids) ]) d
          ≡ (if str_eq old d then without_id id (ids_under m d) else ids_under m d)
    put_or_del [] h = ground (arith, GoMap.get-del m old d, str_eq_iff old d)
    put_or_del (j ∷ ids) h = ground (arith, GoMap.get-put m old (j ∷ ids) d, str_eq_iff old d)
