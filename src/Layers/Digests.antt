-- ===== src/Layers/Digests.antt =====
-- The tables of layers.go that lead from a digest to the ids of layers.
use containers_storage.Prelude.{none, some, List, [], ◌∷◌, ◌++◌, Str, str_eq, if◌then◌else◌}
use containers_storage.Prelude.GoMap
use containers_storage.Prelude.GoMap.{GoMap}
use containers_storage.Prelude.Exec.{ok, Exec, pure, ◌>>=◌}
use containers_storage.Layers.{Layer, LayerPlatform, LayerStore, layer_at, lookup, with_layer}

-- m[d], which is a nil slice where the digest is missing
unfoldable pub ids_under : GoMap (List Str) → Str → List Str
ids_under m d = elim (GoMap.get m d) [ none ↦ [] | some ids ↦ ids ]

-- m[d] = append(m[d], id), for a digest that is not empty
unfoldable pub add_id : GoMap (List Str) → Str → Str → GoMap (List Str)
unfolding ids_under
add_id m d id = if str_eq d [] then m else GoMap.put m d (ids_under m d ++ id ∷ [])

-- The first occurrence is cut out.
unfoldable pub cut_id : Str → List Str → List Str
cut_id id [] = []
cut_id id (j ∷ ids) = let rest = cut_id id ids in if str_eq j id then ids else j ∷ rest

-- One of the two loops of deleteInDigestMap
unfoldable pub cut_everywhere : Str → GoMap (List Str) → GoMap (List Str)
unfolding cut_id
cut_everywhere id [] = []
cut_everywhere id ((d, ids) ∷ m) = (d, cut_id id ids) ∷ cut_everywhere id m

unfoldable pub without_id : Str → List Str → List Str
without_id id [] = []
without_id id (j ∷ ids) = let rest = without_id id ids in if str_eq j id then rest else j ∷ rest

-- updateDigestMap, a function within applyDiffWithOptions
unfoldable pub update_digest_map : GoMap (List Str) → Str → Str → Str → GoMap (List Str)
unfolding add_id without_id ids_under
update_digest_map m old new id =
    add_id
      (if str_eq old [] then m else elim (without_id id (ids_under m old)) [
        | [] ↦ GoMap.del m old
        | j ∷ ids ↦ GoMap.put m old (j ∷ ids)
      ])
      new id

module _ {p : LayerPlatform} where
  unfoldable pub layers_by_ids : List Str → Exec (LayerStore p) (List Layer)
  unfolding lookup
  layers_by_ids [] s = (ok [], s)
  layers_by_ids (id ∷ ids) s =
      with_layer (lookup s id) (λ r t. (do rest ← layers_by_ids ids; pure (layer_at s r ∷ rest)) t)
        s

  unfoldable pub layers_by_compressed_digest : Str → Exec (LayerStore p) (List Layer)
  unfolding layers_by_ids ids_under
  layers_by_compressed_digest d s = layers_by_ids (ids_under s.bycompressedsum d) s

  unfoldable pub layers_by_uncompressed_digest : Str → Exec (LayerStore p) (List Layer)
  unfolding layers_by_ids ids_under
  layers_by_uncompressed_digest d s = layers_by_ids (ids_under s.byuncompressedsum d) s
