-- ===== src/Names/Dedupe.antt =====
-- dedupeNames and stringSliceWithoutValue of store.go: what they keep.
use containers_storage.Prelude.{
  ◌≡◌, refl, Bool, true, false, not, ◌&&◌, List, [], ◌∷◌, arith, Str, str_eq, str_eq_iff, elem,
  distinct, is_some,
}
use containers_storage.Prelude.GoMap
use containers_storage.Prelude.GoMap.{GoMap}
use containers_storage.Names.{dedupe_from, dedupe_names, without_value}

elem-dedupe_from :
    (seen : GoMap Bool) (names : List Str) (k : Str)
    → elem k (dedupe_from seen names) ≡ elem k names && not (is_some (GoMap.get seen k))
unfolding dedupe_from elem
elem-dedupe_from seen [] k = refl
elem-dedupe_from seen (name ∷ names) k = ground (
  arith,
  elem-dedupe_from seen names k,
  elem-dedupe_from (GoMap.put seen name true) names k,
  GoMap.get-put seen name true k,
  str_eq_iff name k,
)

distinct-dedupe_from :
    (seen : GoMap Bool) (names : List Str) → distinct (dedupe_from seen names) ≡ true
unfolding dedupe_from distinct
distinct-dedupe_from seen [] = refl
distinct-dedupe_from seen (name ∷ names) = ground (
  arith,
  distinct-dedupe_from seen names,
  distinct-dedupe_from (GoMap.put seen name true) names,
  elem-dedupe_from (GoMap.put seen name true) names name,
  GoMap.get-put seen name true name,
  str_eq_iff name name,
)

pub elem-dedupe_names : (names : List Str) (k : Str) → elem k (dedupe_names names) ≡ elem k names
unfolding dedupe_names
elem-dedupe_names names k =
    ground (arith, elem-dedupe_from GoMap.empty names k, GoMap.get-empty {V = Bool} k)

pub distinct-dedupe_names : (names : List Str) → distinct (dedupe_names names) ≡ true
unfolding dedupe_names
distinct-dedupe_names names = distinct-dedupe_from GoMap.empty names

pub elem-without_value :
    (slice : List Str) (value k : Str)
    → elem k (without_value slice value) ≡ elem k slice && not (str_eq value k)
unfolding without_value elem
elem-without_value [] value k = refl
elem-without_value (v ∷ slice) value k = ground (
  arith,
  elem-without_value slice value k,
  str_eq_iff v value,
  str_eq_iff v k,
  str_eq_iff value k,
)

pub distinct-without_value :
    (slice : List Str) (value : Str)
    → distinct slice ≡ true
    → distinct (without_value slice value) ≡ true
unfolding without_value distinct
distinct-without_value [] value h = refl
distinct-without_value (v ∷ slice) value h =
    ground (arith, distinct-without_value slice value, elem-without_value slice value v)

-- An element that is not there is not removed, and nothing else is.
pub without_value_absent :
    (slice : List Str) (value : Str) → elem value slice ≡ false → without_value slice value ≡ slice
unfolding without_value elem
without_value_absent [] value h = refl
without_value_absent (v ∷ slice) value h = ground (arith, without_value_absent slice value)
