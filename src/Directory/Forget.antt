-- ===== src/Directory/Forget.antt =====
-- A record that leaves the tables of a directory.
use containers_storage.Prelude.{
  ℕ, ◌<◌, ◌≡◌, refl, true, not, ◌&&◌, Option, none, some, List, [], ◌∷◌, arith, Str, str_eq,
  str_eq_iff, length, holds, remove_at, ◌==◌, Option-cases, inl, inr,
}
use containers_storage.Prelude.GoMap
use containers_storage.Slices.{
  cut_found, cut-eq-remove_at, remove, holds-remove, distinct_refs-remove,
}
use containers_storage.TruncIndex.Interface.{IdIndex}
use containers_storage.Containers.Invariant.Delete.{get-unname_all}
use containers_storage.Directory.{Kind, Tables, id_at, names_at, position_of, forget_item}
use containers_storage.Directory.Agrees.{Agrees}

remove_found : List ℕ → Option ℕ → List ℕ
remove_found rs none = rs
remove_found rs (some i) = remove_at i rs

position_of_bound :
    (id_at : ℕ → Str) (rs : List ℕ) (id : Str) (i : ℕ)
    → position_of id_at rs id ≡ some i
    → i < length rs
unfolding position_of
position_of_bound id_at [] id i h = cc
position_of_bound id_at (r ∷ rs) id i h = elim (Option-cases (position_of id_at rs id)) [
  | inl e ↦ ground arith
  | inr (j, e) ↦ ground (arith, position_of_bound id_at rs id j e)
]

-- Where ids tell listed records apart, the first record with the id of `r` is `r`.
remove_found-position_of :
    (id_at : ℕ → Str) (rs : List ℕ) (r : ℕ)
    → ((q : ℕ) → holds q rs ≡ true → str_eq (id_at q) (id_at r) ≡ (q == r))
    → remove_found rs (position_of id_at rs (id_at r)) ≡ remove r rs
unfolding remove_found position_of remove holds remove_at
remove_found-position_of id_at [] r u = refl
remove_found-position_of id_at (x ∷ xs) r u =
    ground (arith, u x, remove_found-position_of id_at xs r (λ q h. u q (ground arith)))

pub cut_found-eq-remove :
    (id_at : ℕ → Str) (rs : List ℕ) (r : ℕ)
    → ((q : ℕ) → holds q rs ≡ true → str_eq (id_at q) (id_at r) ≡ (q == r))
    → cut_found rs (position_of id_at rs (id_at r)) ≡ remove r rs
unfolding cut_found remove_found
cut_found-eq-remove id_at rs r u = elim (Option-cases (position_of id_at rs (id_at r))) [
  | inl e ↦ ground (arith, remove_found-position_of id_at rs r u)
  | inr (i, e) ↦ ground (
    arith,
    remove_found-position_of id_at rs r u,
    cut-eq-remove_at rs i (position_of_bound id_at rs _ i e),
  )
]

module _ {k : Kind} {ix : IdIndex} (r : ℕ) (s : Tables k ix) (v : Agrees s)
    (live : holds r s.items ≡ true) where
  ids_differ : (q : ℕ) → holds q s.items ≡ true → str_eq (id_at s q) (id_at s r) ≡ (q == r)
  ids_differ q h = ground (arith, v.listed q, v.listed r, str_eq_iff (id_at s q) (id_at s r))

  pub items-forget_item : (forget_item r s).items ≡ remove r s.items
  unfolding forget_item
  items-forget_item = cut_found-eq-remove (id_at s) s.items r ids_differ

  pub holds-forget_item :
      (q : ℕ) → holds q (forget_item r s).items ≡ holds q s.items && not (r == q)
  holds-forget_item q = rw items-forget_item (holds-remove r q s.items v.once)

  -- Taking a listed record out of the tables keeps them in agreement.
  pub forget_item-Agrees : Agrees (forget_item r s)
  unfolding forget_item
  forget_item-Agrees = record {
    ids = λ n q h. ground (
      arith,
      holds-forget_item q,
      v.ids n q,
      v.listed r,
      GoMap.get-del s.byid (id_at s r) n,
      str_eq_iff (id_at s r) n,
    );
    listed = λ q h. ground (
      arith,
      holds-forget_item q,
      v.listed q,
      ids_differ q,
      str_eq_iff (id_at s q) (id_at s r),
      GoMap.get-del s.byid (id_at s r) (id_at s q),
      str_eq_iff (id_at s r) (id_at s q),
    );
    once = rw items-forget_item (distinct_refs-remove r s.items v.once);
    allocated = λ q h. ground (arith, holds-forget_item q, v.allocated q);
    named = λ n q h.
        ground (arith, holds-forget_item q, v.named n q, get-unname_all s.byname (names_at s r) n);
    names = λ n q h e. ground (
      arith,
      holds-forget_item q,
      v.names n q,
      v.names n r,
      get-unname_all s.byname (names_at s r) n,
    );
    index_valid = ix.delete-IsValid s.idindex _ v.index_valid;
    indexed = λ n. ground (
      arith,
      v.indexed n,
      ix.contains-delete s.idindex (id_at s r) n v.index_valid,
      GoMap.get-del s.byid (id_at s r) n,
    );
  }
