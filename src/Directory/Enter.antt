-- ===== src/Directory/Enter.antt =====
-- A new record in the tables of a directory.
use containers_storage.Prelude.{
  ◌≡◌, false, none, arith, str_eq_iff, holds-snoc, distinct_refs-snoc, ◌==◌, Bool-cases, inl, inr,
}
use containers_storage.Prelude.GoMap
use containers_storage.Prelude.GoMap.{GoMap}
use containers_storage.TruncIndex.Interface.{IdIndex}
use containers_storage.Containers.Create.{any_in_use}
use containers_storage.Containers.Invariant.Enter.{get-name_all, any_in_use-none}
use containers_storage.Directory.{Kind, Tables, id_at, enter_item}
use containers_storage.Directory.Agrees.{Agrees}

module _ {k : Kind} {ix : IdIndex} (c : k.Item) (s : Tables k ix) (v : Agrees s)
    (unused : GoMap.get s.byid (k.id_of c) ≡ none)
    (free : any_in_use s.byname (k.names_of c) ≡ false) where
  -- Entering a record with a new id and free names keeps the tables in agreement.
  pub enter_item-Agrees : Agrees (enter_item c s)
  unfolding enter_item
  enter_item-Agrees = record {
    ids = λ n r h. ground (
      arith,
      GoMap.get-put s.byid (k.id_of c) s.heap.next n,
      v.ids n r,
      v.allocated r,
      str_eq_iff (k.id_of c) n,
      holds-snoc r s.items s.heap.next,
    );
    listed = λ r h. elim (Bool-cases (s.heap.next == r)) [
      | inl e ↦ ground (
        arith,
        GoMap.get-put s.byid (k.id_of c) s.heap.next (k.id_of c),
        str_eq_iff (k.id_of c) (k.id_of c),
      )
      | inr e ↦ ground (
        arith,
        GoMap.get-put s.byid (k.id_of c) s.heap.next (id_at s r),
        v.listed r,
        str_eq_iff (k.id_of c) (id_at s r),
        holds-snoc r s.items s.heap.next,
      )
    ];
    once = distinct_refs-snoc s.items s.heap.next v.once (ground (arith, v.allocated s.heap.next));
    allocated = λ r h. ground (arith, holds-snoc r s.items s.heap.next, v.allocated r);
    named = λ n r h. ground (
      arith,
      get-name_all s.byname (k.names_of c) s.heap.next n,
      holds-snoc r s.items s.heap.next,
      v.named n r,
      v.allocated r,
    );
    names = λ n r h e. ground (
      arith,
      get-name_all s.byname (k.names_of c) s.heap.next n,
      holds-snoc r s.items s.heap.next,
      any_in_use-none s.byname (k.names_of c) n free,
      v.names n r,
    );
    index_valid = ix.add-IsValid s.idindex (k.id_of c) v.index_valid;
    indexed = λ n. ground (
      arith,
      ix.contains-add s.idindex (k.id_of c) n,
      v.indexed n,
      GoMap.get-put s.byid (k.id_of c) s.heap.next n,
      str_eq_iff (k.id_of c) n,
    );
  }
