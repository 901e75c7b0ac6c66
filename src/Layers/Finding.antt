-- ===== src/Layers/Finding.antt =====
-- What the lookups of layers.go find, in a store whose tables agree with its records.
use containers_storage.Prelude.{
  ℕ, ◌≡◌, refl, inl, inr, true, not, ◌&&◌, some, List, [], ◌∷◌, map, arith, Str, str_eq, elem,
  distinct, holds, distinct_refs, str_eq_iff, subst, is_some, Option-cases,
}
use containers_storage.Prelude.GoMap
use containers_storage.Prelude.GoMap.{GoMap}
use containers_storage.Prelude.Exec.{ok}
use containers_storage.Directory.Find.{find_id}
use containers_storage.Layers.{Layer, LayerPlatform, LayerStore, layer_at, lookup}
use containers_storage.Layers.Digests.{
  ids_under, layers_by_ids, layers_by_compressed_digest, layers_by_uncompressed_digest,
}
use containers_storage.Layers.Filed.{Filed}
use containers_storage.Layers.Coherent.{Coherent}

abbrev pub ids_of : List Layer → List Str
ids_of ls = map (λ l. l.id) ls

module _ {p : LayerPlatform} where
  -- The pointers to the layers that have one of the ids.
  record Pointers (s : LayerStore p) (ids : List Str) : Type 0 where
    refs : List ℕ
    loaded : layers_by_ids ids s ≡ (ok (map (layer_at s) refs), s)
    members : (r : ℕ) → holds r refs ≡ holds r s.tables.items && elem (layer_at s r).id ids
    once : distinct ids ≡ true → distinct_refs refs ≡ true

  next_pointer :
      (s : LayerStore p) (id : Str) (ids : List Str) (r : ℕ)
      → Coherent s
      → GoMap.get s.tables.byid id ≡ some r
      → Pointers s ids
      → Pointers s (id ∷ ids)
  unfolding layers_by_ids elem holds distinct distinct_refs lookup
  next_pointer s id ids r v e ps = record {
    refs = r ∷ ps.refs;
    loaded =
        let found : lookup s id ≡ some r =
          subst (λ (n : Str). lookup s n ≡ some r) (v.tables.ids id r e).0
            (find_id s.tables v.tables r (v.tables.ids id r e).1) in
        rw (found, ps.loaded) refl;
    members = λ q. ground (
      arith,
      ps.members q,
      v.tables.ids id r,
      v.tables.listed q,
      str_eq_iff id (layer_at s q).id,
    );
    once = λ d. ground (arith, ps.once, ps.members r, v.tables.ids id r);
  }

  pointers :
      (s : LayerStore p) (ids : List Str)
      → Coherent s
      → ((id : Str) → elem id ids ≡ true → is_some (GoMap.get s.tables.byid id) ≡ true)
      → Pointers s ids
  unfolding layers_by_ids elem holds distinct_refs
  pointers s [] v known = record {
    refs = [];
    loaded = refl;
    members = λ r. ground arith;
    once = λ d. refl;
  }
  pointers s (id ∷ ids) v known =
      let ps = pointers s ids v (λ j h. known j (ground arith)) in
      elim (Option-cases (GoMap.get s.tables.byid id)) [
        | inl e ↦ ground (arith, known id, str_eq_iff id id)
        | inr (r, e) ↦ next_pointer s id ids r v e ps
      ]

  -- What a lookup by digest returns: the listed layers that have the digest, each of them once, and
  -- none for the empty digest.
  abbrev pub HaveDigest : LayerStore p → (Layer → Str) → Str → List ℕ → Type 0
  HaveDigest s digest d rs =
      ((r : ℕ)
        → holds r rs
          ≡ holds r s.tables.items && (not (str_eq d []) && str_eq (digest (layer_at s r)) d))
      × (distinct_refs rs ≡ true)

  under_digest :
      (s : LayerStore p) (digest : Layer → Str) (m : GoMap (List Str)) (d : Str)
      → Coherent s
      → Filed digest s.tables m
      → (rs : List ℕ) × (layers_by_ids (ids_under m d) s ≡ (ok (map (layer_at s) rs), s))
        × HaveDigest s digest d rs
  under_digest s digest m d v f =
      let ps = pointers s (ids_under m d) v (λ id. f.known d id) in
      (ps.refs, ps.loaded, (λ r. ground (arith, ps.members r, f.filed d r), ps.once (f.once d)))

  -- In a coherent store the lookups by the digests of a layer's compressed and uncompressed contents return
  -- the listed layers that have the digest, each of them once, and none for the empty digest.
  pub layers_by_digest_sound :
      (s : LayerStore p) (d : Str)
      → Coherent s
      → ((rs : List ℕ) × (layers_by_compressed_digest d s ≡ (ok (map (layer_at s) rs), s))
          × HaveDigest s (λ l. l.compressed_digest) d rs)
        × ((rs : List ℕ) × (layers_by_uncompressed_digest d s ≡ (ok (map (layer_at s) rs), s))
            × HaveDigest s (λ l. l.uncompressed_digest) d rs)
  unfolding layers_by_compressed_digest layers_by_uncompressed_digest
  layers_by_digest_sound s d v = (
    under_digest s (λ l. l.compressed_digest) s.bycompressedsum d v v.compressed,
    under_digest s (λ l. l.uncompressed_digest) s.byuncompressedsum d v v.uncompressed,
  )
