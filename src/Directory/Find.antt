-- ===== src/Directory/Find.antt =====
-- What the tables of a directory find.
use containers_storage.Prelude.{
  ℕ, ◌≡◌, refl, sym, ◌∙◌, true, some, arith, Str, elem, is_prefix, holds, Option-cases, inl, inr,
  ◌⊎◌,
}
use containers_storage.Prelude.GoMap
use containers_storage.Prelude.Exec.{Result, ok, fails, panics, diverges}
use containers_storage.TruncIndex.Prefixes.{proper}
use containers_storage.TruncIndex.Interface.{IdIndex}
use containers_storage.Containers.{by_prefix}
use containers_storage.Directory.{Kind, Tables, id_at, names_at, find}
use containers_storage.Directory.Agrees.{Agrees}

-- `r` is the only listed record whose id the index accepts and that starts with `n`.
abbrev pub OnlyPrefixed : {k : Kind} {ix : IdIndex} → Tables k ix → Str → ℕ → Type 0
OnlyPrefixed s n r =
    (is_prefix n (id_at s r) ≡ true)
    × ((q : ℕ)
        → holds q s.items ≡ true
        → proper (id_at s q) ≡ true
        → is_prefix n (id_at s q) ≡ true
        → q ≡ r)

module _ {k : Kind} {ix : IdIndex} (s : Tables k ix) (v : Agrees s) where
  by_prefix-holds : (f : Result Str) (r : ℕ) → by_prefix s.byid f ≡ some r → holds r s.items ≡ true
  by_prefix-holds (ok id) r h = (v.ids id r h).1
  by_prefix-holds (fails e) r h = cc
  by_prefix-holds panics r h = cc
  by_prefix-holds diverges r h = cc

  -- Whatever is found is a listed record.
  pub find-holds : (id : Str) (r : ℕ) → find s id ≡ some r → holds r s.items ≡ true
  unfolding find
  find-holds id r h =
      ground (arith, v.ids id r, v.named id r, by_prefix-holds (ix.get s.idindex id) r)

  same_id :
      (q r : ℕ) → holds q s.items ≡ true → holds r s.items ≡ true → id_at s q ≡ id_at s r → q ≡ r
  same_id q r h g e = ground (arith, v.listed q, v.listed r)

  by_prefix_only :
      (n : Str) (f : Result Str) (r : ℕ)
      → ix.get s.idindex n ≡ f
      → by_prefix s.byid f ≡ some r
      → OnlyPrefixed s n r
  by_prefix_only n (ok id) r g h =
      let (known, start, only) = ix.get_sound s.idindex v.index_valid n id g in
      let (same, live) = v.ids id r h in
      (
        rw same start,
        λ q l a b.
            same_id q r l live
              (only (id_at s q) (ground (arith, v.indexed (id_at s q), v.listed q)) b ∙ sym same),
      )
  by_prefix_only n (fails e) r g h = cc
  by_prefix_only n panics r g h = cc
  by_prefix_only n diverges r g h = cc

  -- What is found for `n` is listed, and `n` is its id, one of its names, or a prefix of its id and of no
  -- other id that the index accepts.
  pub find_sound :
      (n : Str) (r : ℕ)
      → find s n ≡ some r
      → (holds r s.items ≡ true)
        × ((id_at s r ≡ n) ⊎ (elem n (names_at s r) ≡ true) ⊎ OnlyPrefixed s n r)
  unfolding find
  find_sound n r h = (
    find-holds n r h,
    elim (Option-cases (GoMap.get s.byid n)) [
      | inr (q, e) ↦ inl (ground (arith, v.ids n q))
      | inl a ↦ elim (Option-cases (GoMap.get s.byname n)) [
        | inr (q, e) ↦ inr (inl (ground (arith, v.named n q)))
        | inl b ↦ inr (inr (by_prefix_only n (ix.get s.idindex n) r refl (rw (a, b) at h)))
      ]
    ],
  )

  -- A listed record is found by its id.
  pub find_id : (r : ℕ) → holds r s.items ≡ true → find s (id_at s r) ≡ some r
  unfolding find
  find_id r h = ground (arith, v.listed r)
