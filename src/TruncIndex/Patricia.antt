-- ===== src/TruncIndex/Patricia.antt =====
-- The radix tree of go-patricia, as pkg/truncindex uses it: a set of byte strings with the visit of
-- the entries below a prefix. The laws are what that package documents of its calls.
use containers_storage.Prelude.{
  ◌≡◌, refl, Bool, true, false, not, ◌&&◌, ◌||◌, List, [], ◌∷◌, arith, Str, str_eq, str_eq_iff,
  elem, distinct, is_prefix, if◌then◌else◌,
}

pub record Trie : Type 1 where
  pub Tree : Type 0
  -- patricia.NewTrie
  pub new : Tree
  -- t.Insert(key, item): the tree, and whether the key was new
  pub insert : Tree → Str → Tree × Bool
  -- t.Delete(key): the tree, and whether the key was there
  pub remove : Tree → Str → Tree × Bool
  -- the keys that t.VisitSubtree(prefix, visitor) passes to its visitor, in order
  pub below : Tree → Str → List Str
  pub stored : Tree → Str → Bool
  pub stored_new : (k : Str) → stored new k ≡ false
  pub stored_insert : (t : Tree) (k j : Str) → stored (insert t k).0 j ≡ str_eq k j || stored t j
  pub insert_fresh : (t : Tree) (k : Str) → (insert t k).1 ≡ not (stored t k)
  pub stored_remove :
      (t : Tree) (k j : Str) → stored (remove t k).0 j ≡ (if str_eq k j then false else stored t j)
  pub remove_found : (t : Tree) (k : Str) → (remove t k).1 ≡ stored t k
  pub elem_below : (t : Tree) (p k : Str) → elem k (below t p) ≡ stored t k && is_prefix p k
  pub distinct_below : (t : Tree) (p : Str) → distinct (below t p) ≡ true

-- The laws can be met: a slice without duplicates.
unfoldable pub without : Str → List Str → List Str
without k [] = []
without k (x ∷ xs) = let rest = without k xs in if str_eq x k then rest else x ∷ rest

unfoldable pub select : Str → List Str → List Str
select p [] = []
select p (x ∷ xs) = let rest = select p xs in if is_prefix p x then x ∷ rest else rest

pub elem-without :
    (k j : Str) (xs : List Str) → elem j (without k xs) ≡ (if str_eq k j then false else elem j xs)
unfolding without elem
elem-without k j [] = ground arith
elem-without k j (x ∷ xs) =
    ground (arith, elem-without k j xs, str_eq_iff x k, str_eq_iff x j, str_eq_iff k j)

pub distinct-without :
    (k : Str) (xs : List Str) → distinct xs ≡ true → distinct (without k xs) ≡ true
unfolding without distinct
distinct-without k [] h = refl
distinct-without k (x ∷ xs) h = ground (arith, distinct-without k xs, elem-without k x xs)

pub elem-select : (p k : Str) (xs : List Str) → elem k (select p xs) ≡ elem k xs && is_prefix p k
unfolding select elem
elem-select p k [] = refl
elem-select p k (x ∷ xs) = ground (arith, elem-select p k xs, str_eq_iff x k)

pub distinct-select : (p : Str) (xs : List Str) → distinct xs ≡ true → distinct (select p xs) ≡ true
unfolding select distinct
distinct-select p [] h = refl
distinct-select p (x ∷ xs) h = ground (arith, distinct-select p xs, elem-select p x xs)

abbrev pub Slice : Type 0
Slice = (xs : List Str) × (distinct xs ≡ true)

unfoldable pub add_new : Str → List Str → List Str
add_new k xs = if elem k xs then xs else k ∷ xs

pub distinct-add_new :
    (k : Str) (xs : List Str) → distinct xs ≡ true → distinct (add_new k xs) ≡ true
unfolding add_new distinct
distinct-add_new k xs h = ground arith

pub elem-add_new : (k j : Str) (xs : List Str) → elem j (add_new k xs) ≡ str_eq k j || elem j xs
unfolding add_new elem
elem-add_new k j xs = ground (arith, str_eq_iff k j)

pub distinct_nil : distinct [] ≡ true
unfolding distinct
distinct_nil = refl

pub elem_nil : (k : Str) → elem k [] ≡ false
unfolding elem
elem_nil k = refl

abbrev pub slice_trie : Trie
slice_trie = record {
  Tree = Slice;
  new = ([], distinct_nil);
  insert = λ t k. ((add_new k t.0, distinct-add_new k t.0 t.1), not (elem k t.0));
  remove = λ t k. ((without k t.0, distinct-without k t.0 t.1), elem k t.0);
  below = λ t p. select p t.0;
  stored = λ t k. elem k t.0;
  stored_new = elem_nil;
  stored_insert = λ t k j. elem-add_new k j t.0;
  insert_fresh = λ t k. refl;
  stored_remove = λ t k j. elem-without k j t.0;
  remove_found = λ t k. refl;
  elem_below = λ t p k. elem-select p k t.0;
  distinct_below = λ t p. distinct-select p t.0 t.1;
}
