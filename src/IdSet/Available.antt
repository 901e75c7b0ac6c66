-- ===== src/IdSet/Available.antt =====
-- findAvailable of idset.go takes as many ids as were asked for, and only ids of the set.
use containers_storage.Prelude.{
  ◌≡◌, refl, sym, subst, ap, ◌∙◌, inl, inr, Bool, true, false, ◌&&◌, ◌||◌, List, [], ◌∷◌,
  Bool-cases, arith,
}
use containers_storage.Prelude.Int.{
  ℤ, pos, pos_part, neg_part, ◌+ℤ◌, ◌-ℤ◌, ◌≤ℤ◌, leb_ℤ, ltb_ℤ, is_id, +ℤ_parts, -ℤ_parts,
  eq_of_parts,
}
use containers_storage.IdSet.{Interval, min_int, size_from, take_ids}
use containers_storage.IdSet.Exact.{
  length_exact, size_exact, take_exact, ids_fit, room_for, room_for_less, length-taken, taken_fits,
  size_from-exact, take_ids-exact,
}

-- An id of one of the intervals.
unfoldable pub covers : List Interval → ℤ → Bool
covers [] id = false
covers (i ∷ is) id = (leb_ℤ i.start id && ltb_ℤ id i.end) || covers is id

abbrev taken : Interval → ℤ → Interval
taken i n = record i { end = min_int i.end (i.start +ℤ n) }

size_exact-take_exact :
    (a n : ℤ) (is : List Interval)
    → is_id n ≡ true
    → (pos 0 ≤ℤ (take_exact n is).1)
      × (size_exact a (take_exact n is).0 +ℤ (take_exact n is).1 ≡ a +ℤ n)
unfolding take_exact size_exact
size_exact-take_exact a n [] h = (ground arith, refl)
size_exact-take_exact a n (i ∷ is) h =
    let l = length_exact (taken i n) in
    let (short, low) = length-taken i n h in
    let (left, sum) =
      size_exact-take_exact (a +ℤ l) (n -ℤ l) is (ground (arith, short, low, -ℤ_parts n l)) in
    elim (Bool-cases (ltb_ℤ (pos 0) n)) [
      | inl more ↦ rw more (
        left,
        sum
            ∙ eq_of_parts (a +ℤ l +ℤ (n -ℤ l)) (a +ℤ n) (
                omega
                  (arith, +ℤ_parts a l, -ℤ_parts n l, +ℤ_parts (a +ℤ l) (n -ℤ l), +ℤ_parts a n)),
      )
      | inr enough ↦ rw enough (ground arith, refl)
    ]

take_exact-covers :
    (n : ℤ) (is : List Interval) (id : ℤ)
    → covers (take_exact n is).0 id ≡ true
    → covers is id ≡ true
unfolding take_exact covers min_int
take_exact-covers n [] id h = h
take_exact-covers n (i ∷ is) id h =
    ground (arith, take_exact-covers (n -ℤ length_exact (taken i n)) is id)

ids_fit-take_exact :
    (n : ℤ) (is : List Interval)
    → room_for n is ≡ true
    → is_id n ≡ true
    → ids_fit (take_exact n is).0 ≡ true
unfolding take_exact room_for ids_fit
ids_fit-take_exact n [] h low = refl
ids_fit-take_exact n (i ∷ is) h low =
    let l = length_exact (taken i n) in
    let (short, some_left) = length-taken i n low in
    let kept = taken_fits i n (ground arith) (ground arith) in
    let rest =
      ids_fit-take_exact (n -ℤ l) is
        (room_for_less n (n -ℤ l) is (ground arith) (omega (arith, short, -ℤ_parts n l))
          (omega (arith, some_left, -ℤ_parts n l)))
        (ground (arith, short, some_left, -ℤ_parts n l)) in
    elim (Bool-cases (ltb_ℤ (pos 0) n)) [
      | inl more ↦ rw more (ground (arith, kept, rest))
      | inr enough ↦ rw enough refl
    ]

size_taken :
    (n : ℤ) (is : List Interval)
    → is_id n ≡ true
    → ltb_ℤ (pos 0) (take_exact n is).1 ≡ false
    → size_exact (pos 0) (take_exact n is).0 ≡ n
size_taken n is h e =
    let (left, sum) = size_exact-take_exact (pos 0) n is h in
    let all = size_exact (pos 0) (take_exact n is).0 in
    eq_of_parts all n (
      omega (
        arith,
        left,
        (leb_of_not_less (take_exact n is).1 e),
        +ℤ_parts all (take_exact n is).1,
        +ℤ_parts (pos 0) n,
        ap pos_part sum,
        ap neg_part sum,
      ))
  where
    leb_of_not_less : (a : ℤ) → ltb_ℤ (pos 0) a ≡ false → a ≤ℤ pos 0
    leb_of_not_less a h = ground arith

-- Where the number of ids that is asked for, the bounds of the intervals and that number of ids after
-- each start are no negative `int`s of 64 bits, and no id is missing at the end, the intervals that
-- findAvailable takes have as many ids as were asked for, and each of these ids is in the set.
pub take_ids_enough :
    (n : ℤ) (is : List Interval)
    → is_id n ≡ true
    → room_for n is ≡ true
    → ltb_ℤ (pos 0) (take_ids n is).1 ≡ false
    → (size_from (pos 0) (take_ids n is).0 ≡ n)
      × ((id : ℤ) → covers (take_ids n is).0 id ≡ true → covers is id ≡ true)
take_ids_enough n is h room e =
    let same = take_ids-exact n is room h in
    let size = size_taken n is h (subst (λ q. ltb_ℤ (pos 0) q.1 ≡ false) same e) in
    rw same (
      size_from-exact (pos 0) (take_exact n is).0 (ids_fit-take_exact n is room h) (omega arith)
            (subst (λ m. is_id m ≡ true) (sym size) h)
          ∙ size,
      λ id. take_exact-covers n is id,
    )
