-- ===== src/IdSet/Zip.antt =====
-- zip of idset.go: the loop ends, and maps as many ids as the smaller set has.
use containers_storage.Prelude.{
  ℕ, zero, suc, ◌+◌, ◌≤◌, ◌≡◌, refl, ap, sym, ◌∙◌, inl, inr, true, false, Option, some, List, [],
  ◌∷◌, length, if◌then◌else◌, Bool-cases, arith,
}
use containers_storage.Prelude.Int.{
  ℤ, pos, ◌+ℤ◌, ◌-ℤ◌, ◌≤ℤ◌, ltb_ℤ, is_id, +ℤ_parts, -ℤ_parts, eq_of_parts,
}
use containers_storage.IdTools.{IdMap}
use containers_storage.IdSet.{
  Interval, IntervalSets, iterated, size_of, zip, min_int, max_int, prepended,
}
use containers_storage.IdSet.Exact.{
  length_exact, zero_exact, size_exact, zip_exact, ids_fit, length_nonneg, le-size_exact,
  size_from-exact, zip_from-exact,
}

-- The ids that mappings have together.
unfoldable pub mapped_from : ℤ → List IdMap → ℤ
mapped_from size [] = size
mapped_from size (m ∷ ms) = mapped_from (size +ℤ m.size) ms

-- An interval without its first n ids.
abbrev pub advance : Interval → ℤ → Interval
advance i n = record i { start = i.start +ℤ n }

length_exact-advance :
    (i : Interval) (n : ℤ)
    → pos 0 ≤ℤ n
    → n ≤ℤ length_exact i
    → length_exact i ≡ n +ℤ length_exact (advance i n)
unfolding length_exact max_int
length_exact-advance i n h e = eq_of_parts _ _ (
    ground (
      arith,
      -ℤ_parts i.end i.start,
      -ℤ_parts i.end (i.start +ℤ n),
      +ℤ_parts i.start n,
      +ℤ_parts n (i.end -ℤ (i.start +ℤ n)),
      +ℤ_parts n (pos 0),
    ))

-- What the loop goes on with.
abbrev pub rest : Interval → List Interval → List Interval
rest i is = if zero_exact i then is else i ∷ is

size_exact-rest :
    (a : ℤ) (i : Interval) (is : List Interval)
    → size_exact (a +ℤ length_exact i) is ≡ size_exact a (rest i is)
unfolding size_exact zero_exact
size_exact-rest a i is = elim (Bool-cases (zero_exact i)) [
  | inl z ↦ rw z (
      ap (λ b. size_exact b is)
        (eq_of_parts _ _ (ground (arith, +ℤ_parts a (length_exact i), length_nonneg i))))
  | inr n ↦ rw n refl
]

size_exact-advance :
    (a n : ℤ) (i : Interval) (is : List Interval)
    → pos 0 ≤ℤ n
    → n ≤ℤ length_exact i
    → size_exact a (i ∷ is) ≡ size_exact (a +ℤ n) (rest (advance i n) is)
unfolding size_exact
size_exact-advance a n i is h e =
    ap (λ b. size_exact b is)
      (eq_of_parts (a +ℤ length_exact i) (a +ℤ n +ℤ length_exact (advance i n)) (
        rw (length_exact-advance i n h e) (
          omega (
            arith,
            +ℤ_parts a (n +ℤ length_exact (advance i n)),
            +ℤ_parts n (length_exact (advance i n)),
            +ℤ_parts a n,
            +ℤ_parts (a +ℤ n) (length_exact (advance i n)),
          ))))
    ∙ size_exact-rest (a +ℤ n) (advance i n) is

length-rest : (i : Interval) (is : List Interval) → length (rest i is) ≤ suc (length is)
length-rest i is = ground arith

-- The number of ids that one round maps.
abbrev pub step : Interval → Interval → ℤ
step h c = min_int (length_exact h) (length_exact c)

step_bounds :
    (h c : Interval)
    → (pos 0 ≤ℤ step h c) × (step h c ≤ℤ length_exact h) × (step h c ≤ℤ length_exact c)
unfolding min_int
step_bounds h c = (ground (arith, length_nonneg h, length_nonneg c), ground arith, ground arith)

-- Each round uses up an interval.
one_used :
    (h c : Interval)
    → length (rest (advance h (step h c)) []) + length (rest (advance c (step h c)) []) ≤ 1
unfolding zero_exact min_int
one_used h c =
    let (low, of_h, of_c) = step_bounds h c in
    ground (
      arith,
      length_exact-advance h (step h c) low of_h,
      length_exact-advance c (step h c) low of_c,
      +ℤ_parts (step h c) (length_exact (advance h (step h c))),
      +ℤ_parts (step h c) (length_exact (advance c (step h c))),
      length_nonneg (advance h (step h c)),
      length_nonneg (advance c (step h c)),
    )

one_empty :
    (h c : Interval)
    → ltb_ℤ (pos 0) (step h c) ≡ false
    → length (rest h []) + length (rest c []) ≤ 1
unfolding zero_exact min_int
one_empty h c e = ground arith

length_rests :
    (h c : Interval) (hs cs : List Interval)
    → length (rest h []) + length (rest c []) ≤ 1
    → suc (length (rest h hs) + length (rest c cs)) ≤ suc (length hs) + suc (length cs)
length_rests h c hs cs e = ground arith

min_of_le : (a b : ℤ) → a ≤ℤ b → min_int a b ≡ a
unfolding min_int
min_of_le a b h = elim (Bool-cases (ltb_ℤ a b)) [
  | inl e ↦ rw e refl
  | inr e ↦ rw e (eq_of_parts b a (ground arith))
]

min_of_ge : (a b : ℤ) → b ≤ℤ a → min_int a b ≡ b
unfolding min_int
min_of_ge a b h = elim (Bool-cases (ltb_ℤ a b)) [
  | inl e ↦ rw e (eq_of_parts a b (ground arith))
  | inr e ↦ rw e refl
]

-- The loop ends within as many rounds as there are intervals, and the mappings that it makes have
-- as many ids as the smaller set.
pub zip_exact-total :
    (fuel : ℕ) (hs cs : List Interval) (a : ℤ)
    → length hs + length cs ≤ fuel
    → (ms : List IdMap) × (zip_exact fuel hs cs ≡ some ms)
      × (mapped_from a ms ≡ min_int (size_exact a hs) (size_exact a cs))
unfolding zip_exact prepended mapped_from size_exact
zip_exact-total fuel [] cs a e =
    ([], refl, sym (min_of_le a (size_exact a cs) (le-size_exact a cs)))
zip_exact-total fuel (h ∷ hs) [] a e =
    ([], refl, sym (min_of_ge (size_exact a (h ∷ hs)) a (le-size_exact a (h ∷ hs))))
zip_exact-total zero (h ∷ hs) (c ∷ cs) a e = absurd (omega (arith, e))
zip_exact-total (suc fuel) (h ∷ hs) (c ∷ cs) a e =
    let n = step h c in
    let (low, of_h, of_c) = step_bounds h c in
    elim (Bool-cases (ltb_ℤ (pos 0) n)) [
      | inl some_ids ↦
          let (ms, done, size) =
            zip_exact-total fuel (rest (advance h n) hs) (rest (advance c n) cs) (a +ℤ n)
              (omega (arith, e, length_rests (advance h n) (advance c n) hs cs (one_used h c))) in
          (
            record { container_id = c.start; host_id = h.start; size = n } ∷ ms,
            rw (some_ids, done) refl,
            size
                ∙ sym (
                    rw (size_exact-advance a n h hs low of_h, size_exact-advance a n c cs low of_c)
                      refl),
          )
      | inr no_ids ↦
          let (ms, done, size) =
            zip_exact-total fuel (rest h hs) (rest c cs) a
              (omega (arith, e, length_rests h c hs cs (one_empty h c no_ids))) in
          (
            ms,
            rw (no_ids, done) refl,
            size ∙ sym (rw (size_exact-rest a h hs, size_exact-rest a c cs) refl),
          )
    ]

-- Where the bounds of the intervals of both sets and the numbers of their ids are no negative `int`s of
-- 64 bits, zip returns mappings, and these have as many ids as the smaller of the two sets.
pub zip_size :
    (sets : IntervalSets) (s t : Option sets.Set)
    → ids_fit (iterated sets s) ≡ true
    → ids_fit (iterated sets t) ≡ true
    → is_id (size_exact (pos 0) (iterated sets s)) ≡ true
    → is_id (size_exact (pos 0) (iterated sets t)) ≡ true
    → (ms : List IdMap) × (zip sets s t ≡ some ms)
      × (mapped_from (pos 0) ms ≡ min_int (size_of sets s) (size_of sets t))
unfolding zip size_of
zip_size sets s t fit_s fit_t small_s small_t =
    let hs = iterated sets s in
    let cs = iterated sets t in
    let (ms, done, size) = zip_exact-total (length hs + length cs) hs cs (pos 0) (omega arith) in
    (
      ms,
      zip_from-exact (length hs + length cs) hs cs fit_s fit_t ∙ done,
      rw
          (
            size_from-exact (pos 0) hs fit_s (omega arith) small_s,
            size_from-exact (pos 0) cs fit_t (omega arith) small_t,
          )
          size,
    )
