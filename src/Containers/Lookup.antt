-- ===== src/Containers/Lookup.antt =====
-- What lookup of containers.go finds when the tables agree.
use containers_storage.Prelude.{
  ℕ, ◌≡◌, refl, sym, ◌∙◌, true, false, none, some, [], arith, Str, str_eq, elem, is_prefix, holds,
  Option-cases, inl, inr, ◌⊎◌,
}
use containers_storage.Prelude.GoMap
use containers_storage.Prelude.Exec.{Result, ok, fails, panics, diverges}
use containers_storage.TruncIndex.Prefixes.{proper}
use containers_storage.Containers.{ContainerStore, Platform, lookup, by_prefix}
use containers_storage.Containers.Invariant.{Inv}

-- `r` is the only listed record whose id the index accepts and that starts with `k`.
abbrev pub OnlyWithPrefix : {p : Platform} → ContainerStore p → Str → ℕ → Type 0
OnlyWithPrefix s k r =
    (is_prefix k (s.heap.cell r).id ≡ true)
    × ((q : ℕ)
        → holds q s.containers ≡ true
        → proper (s.heap.cell q).id ≡ true
        → is_prefix k (s.heap.cell q).id ≡ true
        → q ≡ r)

module _ {p : Platform} (s : ContainerStore p) (v : Inv s) where
  by_prefix-holds :
      (f : Result Str) (r : ℕ) → by_prefix s.byid f ≡ some r → holds r s.containers ≡ true
  by_prefix-holds (ok id) r h = (v.ids id r h).1
  by_prefix-holds (fails e) r h = cc
  by_prefix-holds panics r h = cc
  by_prefix-holds diverges r h = cc

  -- Whatever `lookup` finds is a listed record.
  pub lookup-holds : (id : Str) (r : ℕ) → lookup s id ≡ some r → holds r s.containers ≡ true
  unfolding lookup
  lookup-holds id r h = ground (
    arith,
    v.ids id r,
    v.named id r,
    v.layered id r,
    by_prefix-holds (p.index.get s.idindex id) r,
  )

  same_id :
      (q r : ℕ)
      → holds q s.containers ≡ true
      → holds r s.containers ≡ true
      → (s.heap.cell q).id ≡ (s.heap.cell r).id
      → q ≡ r
  same_id q r h g e = ground (arith, v.listed q, v.listed r)

  by_prefix_only :
      (k : Str) (f : Result Str) (r : ℕ)
      → p.index.get s.idindex k ≡ f
      → by_prefix s.byid f ≡ some r
      → OnlyWithPrefix s k r
  by_prefix_only k (ok id) r g h =
      let (known, start, only) = p.index.get_sound s.idindex v.index_valid k id g in
      let (same, live) = v.ids id r h in
      (
        rw same start,
        λ q l a b. same_id q r l live (
            only (s.heap.cell q).id (ground (arith, v.indexed (s.heap.cell q).id, v.listed q)) b
            ∙ sym same),
      )
  by_prefix_only k (fails e) r g h = cc
  by_prefix_only k panics r g h = cc
  by_prefix_only k diverges r g h = cc

  -- When the tables agree, a record that `lookup` finds for `k` is listed, and `k` is its id, one of
  -- its names, its layer, or a prefix of its id and of no other id that the index accepts.
  pub lookup_sound :
      (k : Str) (r : ℕ)
      → lookup s k ≡ some r
      → (holds r s.containers ≡ true)
        × (((s.heap.cell r).id ≡ k)
            ⊎ (elem k (s.heap.cell r).names ≡ true)
            ⊎ ((s.heap.cell r).layer_id ≡ k)
            ⊎ OnlyWithPrefix s k r)
  unfolding lookup
  lookup_sound k r h = (
    lookup-holds k r h,
    elim (Option-cases (GoMap.get s.byid k)) [
      | inr (q, e) ↦ inl (ground (arith, v.ids k q))
      | inl a ↦ elim (Option-cases (GoMap.get s.byname k)) [
        | inr (q, e) ↦ inr (inl (ground (arith, v.named k q)))
        | inl b ↦ elim (Option-cases (GoMap.get s.bylayer k)) [
          | inr (q, e) ↦ inr (inr (inl (ground (arith, v.layered k q))))
          | inl c ↦
              inr
                (inr (inr (by_prefix_only k (p.index.get s.idindex k) r refl (rw (a, b, c) at h))))
        ]
      ]
    ],
  )

  index_finds :
      (r : ℕ)
      → holds r s.containers ≡ true
      → (k : Str) → str_eq k [] ≡ false
      → proper (s.heap.cell r).id ≡ true
      → OnlyWithPrefix s k r
      → p.index.get s.idindex k ≡ ok (s.heap.cell r).id
  index_finds r h k ne pr only =
      p.index.get_complete s.idindex v.index_valid k (s.heap.cell r).id ne
        (ground (arith, v.indexed (s.heap.cell r).id, v.listed r)) only.0
        (λ j known start. elim (Option-cases (GoMap.get s.byid j)) [
          | inl e ↦ ground (arith, v.indexed j)
          | inr (q, e) ↦ ground (arith, v.indexed j, v.ids j q, only.1 q)
        ])

  -- When the tables agree, a listed record is found by its id, by each of its names that is no id, and by
  -- a non-empty prefix of its id that is no id, name or layer and starts no other id in the index.
  pub lookup_complete :
      (r : ℕ)
      → holds r s.containers ≡ true
      → (lookup s (s.heap.cell r).id ≡ some r)
        × ((n : Str)
            → elem n (s.heap.cell r).names ≡ true
            → GoMap.get s.byid n ≡ none
            → lookup s n ≡ some r)
        × ((k : Str)
            → str_eq k [] ≡ false
            → proper (s.heap.cell r).id ≡ true
            → OnlyWithPrefix s k r
            → GoMap.get s.byid k ≡ none
            → GoMap.get s.byname k ≡ none
            → GoMap.get s.bylayer k ≡ none
            → lookup s k ≡ some r)
  unfolding lookup
  lookup_complete r h = (
    ground (arith, v.listed r),
    λ n m e. ground (arith, v.names n r),
    λ k ne pr only a b c. rw (a, b, c, index_finds r h k ne pr only) (v.listed r h),
  )
