-- ===== src/Directory/Agrees.antt =====
-- When the tables of a directory agree.
use containers_storage.Prelude.{
  ℕ, ◌<◌, ◌≡◌, ap, true, ◌&&◌, some, arith, Str, elem, holds, distinct_refs, is_some,
}
use containers_storage.Prelude.GoMap
use containers_storage.TruncIndex.Prefixes.{proper}
use containers_storage.TruncIndex.Interface.{IdIndex}
use containers_storage.Directory.{Kind, Tables, id_at, names_at, write_item}

pub record Agrees {k : Kind} {ix : IdIndex} (s : Tables k ix) : Type 0 where
  -- byid holds the listed records, each under its own id
  pub ids :
      (n : Str) (r : ℕ) → GoMap.get s.byid n ≡ some r → (id_at s r ≡ n) × (holds r s.items ≡ true)
  pub listed : (r : ℕ) → holds r s.items ≡ true → GoMap.get s.byid (id_at s r) ≡ some r
  pub once : distinct_refs s.items ≡ true
  -- every listed record was allocated
  pub allocated : (r : ℕ) → holds r s.items ≡ true → r < s.heap.next
  -- byname holds the names of the listed records, and no other
  pub named :
      (n : Str) (r : ℕ)
      → GoMap.get s.byname n ≡ some r
      → (holds r s.items ≡ true) × (elem n (names_at s r) ≡ true)
  pub names :
      (n : Str) (r : ℕ)
      → holds r s.items ≡ true
      → elem n (names_at s r) ≡ true
      → GoMap.get s.byname n ≡ some r
  -- the index knows the ids that it accepts
  pub index_valid : ix.IsValid s.idindex
  pub indexed : (n : Str) → ix.contains s.idindex n ≡ proper n && is_some (GoMap.get s.byid n)

-- Tables whose records keep their ids, and that are the same but for the names, agree if the names do.
module _ {k : Kind} {ix : IdIndex} (s t : Tables k ix) (v : Agrees s)
    (tables : t ≡ record s { heap = record s.heap { cell = t.heap.cell }; byname = t.byname })
    (ids : (q : ℕ) → id_at t q ≡ id_at s q) where
  same_items : t.items ≡ s.items
  same_items = ap (λ (u : Tables k ix). u.items) tables

  same_byid : t.byid ≡ s.byid
  same_byid = ap (λ (u : Tables k ix). u.byid) tables

  same_idindex : t.idindex ≡ s.idindex
  same_idindex = ap (λ (u : Tables k ix). u.idindex) tables

  same_next : t.heap.next ≡ s.heap.next
  same_next = ap (λ (u : Tables k ix). u.heap.next) tables

  pub Agrees-of_names :
      ((n : Str) (q : ℕ)
        → GoMap.get t.byname n ≡ some q
        → (holds q s.items ≡ true) × (elem n (names_at t q) ≡ true))
      → ((n : Str) (q : ℕ)
          → holds q s.items ≡ true
          → elem n (names_at t q) ≡ true
          → GoMap.get t.byname n ≡ some q)
      → Agrees t
  Agrees-of_names named names = record {
    ids = λ n q. rw (same_byid, same_items, ids q) (v.ids n q);
    listed = λ q. rw (same_items, same_byid, ids q) (v.listed q);
    once = rw same_items v.once;
    allocated = λ q. rw (same_items, same_next) (v.allocated q);
    named = λ n q. rw same_items (named n q);
    names = λ n q. rw same_items (names n q);
    index_valid = rw same_idindex v.index_valid;
    indexed = λ n. rw (same_idindex, same_byid) (v.indexed n);
  }

-- A record may change in all but its id and names.
module _ {k : Kind} {ix : IdIndex} where
  pub write_item-Agrees :
      (s : Tables k ix) (r : ℕ) (i : k.Item)
      → k.id_of i ≡ id_at s r
      → k.names_of i ≡ names_at s r
      → Agrees s
      → Agrees (write_item s r i)
  write_item-Agrees s r i same_id same_names v = record {
    ids = λ n q h. ground (arith, same_id, v.ids n q);
    listed = λ q h. ground (arith, same_id, v.listed q);
    once = v.once;
    allocated = v.allocated;
    named = λ n q h. ground (arith, same_names, v.named n q);
    names = λ n q h e. ground (arith, same_names, v.names n q);
    index_valid = v.index_valid;
    indexed = v.indexed;
  }
