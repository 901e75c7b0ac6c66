-- ===== src/IdSet.antt =====
-- idset.go: sets of ids as intervals. The sets themselves are those of a third-party package and a
-- parameter. A nil set is `none`. Ids are `int`s of 64 bits, whose sums wrap around.
pub mod Exact
pub mod Zip
pub mod Intervals
pub mod Available
use containers_storage.Prelude.{
  ℕ, zero, suc, ◌+◌, length, Bool, true, false, not, ◌&&◌, ◌||◌, Option, none, some, List, [], ◌∷◌,
  ◌++◌, map, if◌then◌else◌,
}
use containers_storage.Prelude.Int.{ℤ, pos, add_int, sub_int, leb_ℤ, ltb_ℤ, eqb_ℤ}
use containers_storage.IdTools.{IdMap}

unfoldable pub min_int : ℤ → ℤ → ℤ
min_int a b = if ltb_ℤ a b then a else b

unfoldable pub max_int : ℤ → ℤ → ℤ
max_int a b = if ltb_ℤ a b then b else a

-- [start, end), empty where start >= end
pub record Interval : Type 0 where
  pub start : ℤ
  pub end : ℤ

abbrev pub no_interval : Interval
no_interval = record { start = pos 0; end = pos 0 }

unfoldable pub length_of : Interval → ℤ
unfolding max_int
length_of i = max_int (pos 0) (sub_int i.end i.start)

unfoldable pub is_zero : Interval → Bool
unfolding length_of
is_zero i = leb_ℤ (length_of i) (pos 0)

unfoldable pub intersect : Interval → Interval → Interval
unfolding min_int max_int
intersect i j = record { start = max_int i.start j.start; end = min_int i.end j.end }

unfoldable pub before : Interval → Interval → Bool
unfolding is_zero
before i j = not (is_zero i) && not (is_zero j) && ltb_ℤ i.end j.start

unfoldable pub bisect : Interval → Interval → Interval × Interval
unfolding is_zero min_int max_int
bisect i j = if is_zero j then (i, no_interval) else (
  record { start = i.start; end = min_int i.end j.start },
  record { start = max_int i.start j.end; end = i.end },
)

unfoldable pub adjoin : Interval → Interval → Interval
unfolding is_zero min_int max_int
adjoin i j =
    if not (is_zero i) && not (is_zero j) && (eqb_ℤ i.end j.start || eqb_ℤ j.end i.start)
    then record { start = min_int i.start j.start; end = max_int i.end j.end }
    else no_interval

unfoldable pub encompass : Interval → Interval → Interval
unfolding is_zero min_int max_int
encompass i j =
    if is_zero i
    then j
    else if is_zero j
    then i
    else record { start = min_int i.start j.start; end = max_int i.end j.end }

-- The third-party sets: NewImmutableSet, Add of single intervals to Empty, Sub, Union and Intervals.
pub record IntervalSets : Type 1 where
  pub Set : Type 0
  pub new_set : List Interval → Set
  pub collect : List Interval → Set
  pub sub : Set → Set → Set
  pub union : Set → Set → Set
  pub intervals : Set → List Interval

-- The loop of size.
unfoldable pub size_from : ℤ → List Interval → ℤ
unfolding length_of
size_from size [] = size
size_from size (i ∷ is) = size_from (add_int size (length_of i)) is

-- The loop of findAvailable: the intervals taken, and how many ids are missing still.
unfoldable pub take_ids : ℤ → List Interval → List Interval × ℤ
unfolding min_int length_of
take_ids n [] = ([], n)
take_ids n (i ∷ is) =
    let taken : Interval = record i { end = min_int i.end (add_int i.start n) } in
    let (more, left) = take_ids (sub_int n (length_of taken)) is in
    if ltb_ℤ (pos 0) n then (taken ∷ more, left) else ([], n)

-- out = append(out, m), before the maps of the later rounds
unfoldable pub prepended : IdMap → Option (List IdMap) → Option (List IdMap)
prepended m none = none
prepended m (some ms) = some (m ∷ ms)

-- The loop of zip; `none` where the fuel runs out. An interval that is used up is followed by the next.
unfoldable pub zip_from : ℕ → List Interval → List Interval → Option (List IdMap)
unfolding min_int length_of is_zero prepended
zip_from fuel [] cs = some []
zip_from fuel (h ∷ hs) [] = some []
zip_from zero (h ∷ hs) (c ∷ cs) = none
zip_from (suc fuel) (h ∷ hs) (c ∷ cs) =
    let n = min_int (length_of h) (length_of c) in
    let some_ids = ltb_ℤ (pos 0) n in
    let h' : Interval = if some_ids then record h { start = add_int h.start n } else h in
    let c' : Interval = if some_ids then record c { start = add_int c.start n } else c in
    let next =
      zip_from fuel (if is_zero h' then hs else h' ∷ hs) (if is_zero c' then cs else c' ∷ cs) in
    if some_ids
    then prepended (record { container_id = c.start; host_id = h.start; size = n }) next
    else next

abbrev pub host_interval : IdMap → Interval
host_interval m = record { start = m.host_id; end = add_int m.host_id m.size }

abbrev pub container_interval : IdMap → Interval
container_interval m = record { start = m.container_id; end = add_int m.container_id m.size }

module _ (sets : IntervalSets) where
  -- What the iterator yields: nothing for nil.
  abbrev pub iterated : Option sets.Set → List Interval
  iterated none = []
  iterated (some s) = sets.intervals s

  unfoldable pub new_id_set : List Interval → Option sets.Set
  new_id_set is = some (sets.collect is)

  unfoldable pub get_host_ids : List IdMap → Option sets.Set
  unfolding new_id_set
  get_host_ids ms = new_id_set (map host_interval ms)

  unfoldable pub get_container_ids : List IdMap → Option sets.Set
  unfolding new_id_set
  get_container_ids ms = new_id_set (map container_interval ms)

  unfoldable pub subtract : Option sets.Set → Option sets.Set → Option sets.Set
  subtract none t = none
  subtract (some s) none = some s
  subtract (some s) (some t) = some (sets.sub s t)

  unfoldable pub union_of : Option sets.Set → Option sets.Set → Option sets.Set
  union_of none t = t
  union_of (some s) none = some s
  union_of (some s) (some t) = some (sets.union s t)

  unfoldable pub size_of : Option sets.Set → ℤ
  unfolding size_from
  size_of s = size_from (pos 0) (iterated s)

  -- `none` is the error.
  unfoldable pub find_available : ℤ → Option sets.Set → Option (Option sets.Set)
  unfolding take_ids
  find_available n s =
      let (taken, left) = take_ids n (iterated s) in
      if ltb_ℤ (pos 0) left then none else some (some (sets.new_set taken))

  unfoldable pub zip : Option sets.Set → Option sets.Set → Option (List IdMap)
  unfolding zip_from
  zip s container =
      zip_from (length (iterated s) + length (iterated container)) (iterated s) (iterated container)
