-- ===== src/IdSet/Exact.antt =====
-- The loops of idset.go without bounds on integers, and where they are those of the code.
use containers_storage.Prelude.{
  ℕ, zero, suc, ◌≡◌, refl, ap, Bool, true, ◌&&◌, Option, none, some, List, [], ◌∷◌, if◌then◌else◌,
  Bool-cases, inl, inr, arith,
}
use containers_storage.Prelude.Int.{
  ℤ, pos, ◌+ℤ◌, ◌-ℤ◌, ◌≤ℤ◌, leb_ℤ, ltb_ℤ, is_id, add_int, add_int-fits, sub_int-fits, +ℤ_parts,
  -ℤ_parts,
}
use containers_storage.IdTools.{IdMap}
use containers_storage.IdSet.{
  Interval, min_int, max_int, length_of, is_zero, size_from, prepended, zip_from, take_ids,
}

unfoldable pub length_exact : Interval → ℤ
length_exact i = max_int (pos 0) (i.end -ℤ i.start)

unfoldable pub zero_exact : Interval → Bool
zero_exact i = leb_ℤ (length_exact i) (pos 0)

unfoldable pub size_exact : ℤ → List Interval → ℤ
size_exact size [] = size
size_exact size (i ∷ is) = size_exact (size +ℤ length_exact i) is

-- The bounds of an interval are no negative `int`s.
abbrev pub ends_fit : Interval → Bool
ends_fit i = is_id i.start && is_id i.end

unfoldable pub ids_fit : List Interval → Bool
ids_fit [] = true
ids_fit (i ∷ is) = ends_fit i && ids_fit is

pub length_of-exact : (i : Interval) → ends_fit i ≡ true → length_of i ≡ length_exact i
unfolding length_of length_exact
length_of-exact i h =
    ap (max_int (pos 0)) (sub_int-fits i.end i.start (ground (arith, -ℤ_parts i.end i.start)))

pub is_zero-exact : (i : Interval) → ends_fit i ≡ true → is_zero i ≡ zero_exact i
unfolding is_zero zero_exact
is_zero-exact i h = rw (length_of-exact i h) refl

pub length_nonneg : (i : Interval) → pos 0 ≤ℤ length_exact i
unfolding length_exact max_int
length_nonneg i = ground arith

pub le-size_exact : (a : ℤ) (is : List Interval) → a ≤ℤ size_exact a is
unfolding size_exact
le-size_exact a [] = omega arith
le-size_exact a (i ∷ is) =
    omega
      (arith, le-size_exact (a +ℤ length_exact i) is, +ℤ_parts a (length_exact i), length_nonneg i)

-- Sums that stay within the `int`s are exact.
pub size_from-exact :
    (a : ℤ) (is : List Interval)
    → ids_fit is ≡ true
    → pos 0 ≤ℤ a
    → is_id (size_exact a is) ≡ true
    → size_from a is ≡ size_exact a is
unfolding size_from size_exact ids_fit
size_from-exact a [] fit low h = refl
size_from-exact a (i ∷ is) fit low h =
    let next = a +ℤ length_exact i in
    let sum : add_int a (length_exact i) ≡ next =
      add_int-fits a (length_exact i)
        (ground (arith, le-size_exact next is, +ℤ_parts a (length_exact i), length_nonneg i)) in
    rw (length_of-exact i (ground arith), sum)
      (size_from-exact next is (ground arith)
        (ground (arith, +ℤ_parts a (length_exact i), length_nonneg i)) h)

unfoldable pub take_exact : ℤ → List Interval → List Interval × ℤ
take_exact n [] = ([], n)
take_exact n (i ∷ is) =
    let taken : Interval = record i { end = min_int i.end (i.start +ℤ n) } in
    let (more, left) = take_exact (n -ℤ length_exact taken) is in
    if ltb_ℤ (pos 0) n then (taken ∷ more, left) else ([], n)

-- No end of a part of `n` ids is beyond the `int`s.
unfoldable pub room_for : ℤ → List Interval → Bool
room_for n [] = true
room_for n (i ∷ is) = (ends_fit i && is_id (i.start +ℤ n)) && room_for n is

pub room_for_less :
    (n m : ℤ) (is : List Interval)
    → room_for n is ≡ true
    → pos 0 ≤ℤ m
    → m ≤ℤ n
    → room_for m is ≡ true
unfolding room_for
room_for_less n m [] h low e = refl
room_for_less n m (i ∷ is) h low e =
    ground (arith, room_for_less n m is, +ℤ_parts i.start n, +ℤ_parts i.start m)

unfoldable pub zip_exact : ℕ → List Interval → List Interval → Option (List IdMap)
zip_exact fuel [] cs = some []
zip_exact fuel (h ∷ hs) [] = some []
zip_exact zero (h ∷ hs) (c ∷ cs) = none
zip_exact (suc fuel) (h ∷ hs) (c ∷ cs) =
    let n = min_int (length_exact h) (length_exact c) in
    let some_ids = ltb_ℤ (pos 0) n in
    let h' : Interval = if some_ids then record h { start = h.start +ℤ n } else h in
    let c' : Interval = if some_ids then record c { start = c.start +ℤ n } else c in
    let next =
      zip_exact fuel (if zero_exact h' then hs else h' ∷ hs)
        (if zero_exact c' then cs else c' ∷ cs) in
    if some_ids
    then prepended (record { container_id = c.start; host_id = h.start; size = n }) next
    else next

rest_fits :
    (i : Interval) (is : List Interval)
    → ends_fit i ≡ true
    → ids_fit is ≡ true
    → ids_fit (if zero_exact i then is else i ∷ is) ≡ true
unfolding ids_fit
rest_fits i is h e = ground arith

-- An interval without ids that it has begins where an `int` says.
advance_fits :
    (i : Interval) (n : ℤ)
    → ends_fit i ≡ true
    → ltb_ℤ (pos 0) n ≡ true
    → n ≤ℤ length_exact i
    → is_id (i.start +ℤ n) ≡ true
unfolding length_exact max_int
advance_fits i n h low e = ground (arith, +ℤ_parts i.start n, -ℤ_parts i.end i.start)

min_lower : (a b : ℤ) → (min_int a b ≤ℤ a) × (min_int a b ≤ℤ b)
unfolding min_int
min_lower a b = (ground arith, ground arith)

pub zip_from-exact :
    (fuel : ℕ) (hs cs : List Interval)
    → ids_fit hs ≡ true
    → ids_fit cs ≡ true
    → zip_from fuel hs cs ≡ zip_exact fuel hs cs
unfolding zip_from zip_exact ids_fit
zip_from-exact fuel [] cs f g = refl
zip_from-exact fuel (h ∷ hs) [] f g = refl
zip_from-exact zero (h ∷ hs) (c ∷ cs) f g = refl
zip_from-exact (suc fuel) (h ∷ hs) (c ∷ cs) f g =
    let h_fits : ends_fit h ≡ true = ground arith in
    let c_fits : ends_fit c ≡ true = ground arith in
    let hs_fit : ids_fit hs ≡ true = ground arith in
    let cs_fit : ids_fit cs ≡ true = ground arith in
    let n = min_int (length_exact h) (length_exact c) in
    let (of_h, of_c) = min_lower (length_exact h) (length_exact c) in
    elim (Bool-cases (ltb_ℤ (pos 0) n)) [
      | inl some_ids ↦
          let h' : Interval = record h { start = h.start +ℤ n } in
          let c' : Interval = record c { start = c.start +ℤ n } in
          let h_start = advance_fits h n h_fits some_ids of_h in
          let c_start = advance_fits c n c_fits some_ids of_c in
          let h_next : ends_fit h' ≡ true = ground (arith, h_start) in
          let c_next : ends_fit c' ≡ true = ground (arith, c_start) in
          rw
            (
              length_of-exact h h_fits,
              length_of-exact c c_fits,
              some_ids,
              add_int-fits h.start n (ground (arith, h_start)),
              add_int-fits c.start n (ground (arith, c_start)),
              is_zero-exact h' h_next,
              is_zero-exact c' c_next,
              zip_from-exact fuel (if zero_exact h' then hs else h' ∷ hs)
                  (if zero_exact c' then cs else c' ∷ cs) (rest_fits h' hs h_next hs_fit)
                  (rest_fits c' cs c_next cs_fit),
            )
            refl
      | inr no_ids ↦
          rw
            (
              length_of-exact h h_fits,
              length_of-exact c c_fits,
              no_ids,
              is_zero-exact h h_fits,
              is_zero-exact c c_fits,
            )
            (zip_from-exact fuel (if zero_exact h then hs else h ∷ hs)
              (if zero_exact c then cs else c ∷ cs) (rest_fits h hs h_fits hs_fit)
              (rest_fits c cs c_fits cs_fit))
    ]

pub length-taken :
    (i : Interval) (n : ℤ)
    → is_id n ≡ true
    → let taken : Interval = record i { end = min_int i.end (i.start +ℤ n) } in
      (length_exact taken ≤ℤ n) × (pos 0 ≤ℤ length_exact taken)
unfolding length_exact min_int max_int
length-taken i n h = (
  ground (arith, +ℤ_parts i.start n, -ℤ_parts i.end i.start, -ℤ_parts (i.start +ℤ n) i.start),
  ground arith,
)

pub taken_fits :
    (i : Interval) (n : ℤ)
    → ends_fit i ≡ true
    → is_id (i.start +ℤ n) ≡ true
    → ends_fit (record i { end = min_int i.end (i.start +ℤ n) }) ≡ true
unfolding min_int
taken_fits i n h e = ground arith

pub take_ids-exact :
    (n : ℤ) (is : List Interval)
    → room_for n is ≡ true
    → is_id n ≡ true
    → take_ids n is ≡ take_exact n is
unfolding take_ids take_exact room_for
take_ids-exact n [] h low = refl
take_ids-exact n (i ∷ is) h low =
    let taken : Interval = record i { end = min_int i.end (i.start +ℤ n) } in
    let (short, some_left) = length-taken i n low in
    let kept : ends_fit taken ≡ true = taken_fits i n (ground arith) (ground arith) in
    let left = n -ℤ length_exact taken in
    let (enough, fewer) : (pos 0 ≤ℤ left) × (left ≤ℤ n) = (
      omega (arith, -ℤ_parts n (length_exact taken), short),
      omega (arith, -ℤ_parts n (length_exact taken), some_left),
    ) in
    rw
      (
        add_int-fits i.start n (ground arith),
        length_of-exact taken kept,
        sub_int-fits n (length_exact taken) (ground (arith, enough, fewer)),
        take_ids-exact left is (room_for_less n left is (ground arith) enough fewer)
            (ground (arith, enough, fewer)),
      )
      refl
