-- ===== src/IdTools/Ranges.antt =====
-- The mapping that createIDMap of pkg/idtools/idtools.go makes of a user's ranges.
use containers_storage.Prelude.{
  ℕ, ◌+◌, ◌^◌, ◌<◌, ◌≡◌, refl, ap, ◌∙◌, inl, inr, Bool, true, false, ◌&&◌, Option, none, some, List,
  [], ◌∷◌, is_some, Bool-cases, arith, if◌then◌else◌,
}
use mathlib.Core.List.{Perm}
use native.Mathlib.Nat.{ℕ_set}
use mathlib.Core.Bool.{Bool-set}
use mathlib.Core.List.{Permᴰ}
use mathlib.Core.Logic.{∥∥₁_elim}
use containers_storage.Prelude.Int.{
  ℤ, pos, pos_part, ◌+ℤ◌, ◌-ℤ◌, ◌≤ℤ◌, ltb_ℤ, is_id, add_int-fits, +ℤ_parts, -ℤ_parts, eq_of_parts,
}
use containers_storage.IdTools.{SubIdRange, to_host_from, to_host, maps_from, create_id_map}
use containers_storage.IdTools.Translate.{within, in_range-within, moved_fits}

-- The ids of the ranges, and those after them, are no negative `int`s.
unfoldable pub ranges_fit : List SubIdRange → Bool
ranges_fit [] = true
ranges_fit (r ∷ rs) =
    (is_id r.start && is_id r.length && is_id (r.start +ℤ r.length)) && ranges_fit rs

-- The ids that the ranges hold together.
unfoldable pub total : List SubIdRange → ℕ
total [] = 0
total (r ∷ rs) = pos_part r.length + total rs

-- The k-th id of the ranges, in their order.
unfoldable pub nth_id : List SubIdRange → ℤ → Option ℤ
nth_id [] k = none
nth_id (r ∷ rs) k =
    let rest = nth_id rs (k -ℤ r.length) in if ltb_ℤ k r.length then some (r.start +ℤ k) else rest

-- Whether the ranges from `next` on end within the `int`s.
abbrev room : ℤ → List SubIdRange → Bool
room next rs = is_id next && is_id (next +ℤ pos (total rs))

room_next :
    (next : ℤ) (r : SubIdRange) (rs : List SubIdRange)
    → room next (r ∷ rs) ≡ true
    → is_id r.length ≡ true
    → room (next +ℤ r.length) rs ≡ true
unfolding total
room_next next r rs h e = ground (
  arith,
  +ℤ_parts next r.length,
  +ℤ_parts (next +ℤ r.length) (pos (total rs)),
  +ℤ_parts next (pos (pos_part r.length + total rs)),
)

room_end :
    (next : ℤ) (r : SubIdRange) (rs : List SubIdRange)
    → room next (r ∷ rs) ≡ true
    → is_id r.length ≡ true
    → is_id (next +ℤ r.length) ≡ true
unfolding total
room_end next r rs h e = ground (arith, room_next next r rs)

ltb_of_within :
    (next length id : ℤ)
    → next ≤ℤ id
    → within next length id ≡ true
    → ltb_ℤ (id -ℤ next) length ≡ true
ltb_of_within next length id h e =
    ground (arith, +ℤ_parts next length, -ℤ_parts (next +ℤ length) (pos 1), -ℤ_parts id next)

ltb_of_later :
    (next length id : ℤ)
    → next ≤ℤ id
    → within next length id ≡ false
    → ltb_ℤ (id -ℤ next) length ≡ false
ltb_of_later next length id h e =
    ground (arith, +ℤ_parts next length, -ℤ_parts (next +ℤ length) (pos 1), -ℤ_parts id next)

later_id :
    (next length id : ℤ)
    → next ≤ℤ id
    → is_id length ≡ true
    → within next length id ≡ false
    → next +ℤ length ≤ℤ id
later_id next length id h size e =
    ground (arith, +ℤ_parts next length, -ℤ_parts (next +ℤ length) (pos 1))

sub_sub : (id next length : ℤ) → id -ℤ (next +ℤ length) ≡ id -ℤ next -ℤ length
sub_sub id next length = eq_of_parts _ _ (
    ground (
      arith,
      +ℤ_parts next length,
      -ℤ_parts id (next +ℤ length),
      -ℤ_parts id next,
      -ℤ_parts (id -ℤ next) length,
    ))

to_host-maps_from :
    (next : ℤ) (rs : List SubIdRange) (id : ℤ)
    → ranges_fit rs ≡ true
    → room next rs ≡ true
    → next ≤ℤ id
    → to_host_from id (maps_from next rs) ≡ nth_id rs (id -ℤ next)
unfolding maps_from to_host_from nth_id ranges_fit
to_host-maps_from next [] id fit r h = refl
to_host-maps_from next (r ∷ rs) id fit space h =
    let next_ok : is_id next ≡ true = ground arith in
    let size : is_id r.length ≡ true = ground arith in
    let end = room_end next r rs space size in
    let sum = add_int-fits next r.length (ground arith) in
    let same = in_range-within next r.length id next_ok size end in
    elim (Bool-cases (within next r.length id)) [
      | inl here ↦
          let first =
            moved_fits next r.start r.length id next_ok (ground arith) size (ground arith) here in
          rw (same, here, ltb_of_within next r.length id h here) (ap some first)
      | inr later ↦
          let beyond : next +ℤ r.length ≤ℤ id = later_id next r.length id h size later in
          rw (same, later, ltb_of_later next r.length id h later, sum)
            (to_host-maps_from (next +ℤ r.length) rs id (ground arith)
                (room_next next r rs space size) beyond
              ∙ ap (nth_id rs) (sub_sub id next r.length))
    ]

is_some-nth_id :
    (rs : List SubIdRange) (k : ℤ)
    → ranges_fit rs ≡ true
    → pos 0 ≤ℤ k
    → is_some (nth_id rs k) ≡ ltb_ℤ k (pos (total rs))
unfolding nth_id total ranges_fit
is_some-nth_id [] k fit h = ground arith
is_some-nth_id (r ∷ rs) k fit h =
    ground (arith, is_some-nth_id rs (k -ℤ r.length), -ℤ_parts k r.length)

-- A permutation keeps the number of ids, and that they fit.
abbrev Alike : List SubIdRange → List SubIdRange → Type 0
Alike rs qs = (total rs ≡ total qs) × (ranges_fit rs ≡ ranges_fit qs)

same_steps : {rs qs : List SubIdRange} → Permᴰ rs qs → Alike rs qs
unfolding total ranges_fit
same_steps Permᴰ.nil = (refl, refl)
same_steps (Permᴰ.cons e d) = let (n, b) = same_steps d in (rw (e, n) refl, rw (e, b) refl)
same_steps (Permᴰ.swap e f) = (rw (e, f) (omega arith), rw (e, f) (ground arith))
same_steps (Permᴰ.trans d f) =
    let (n, b) = same_steps d in let (m, c) = same_steps f in (n ∙ m, b ∙ c)

Perm-Alike : {rs qs : List SubIdRange} → Perm rs qs → Alike rs qs
Perm-Alike p = (
  ∥∥₁_elim p (ℕ_set _ _) (λ d. (same_steps d).0),
  ∥∥₁_elim p (Bool-set _ _) (λ d. (same_steps d).1),
)

-- Where sort.Sort permutes, and the ids of the ranges, those after them and the number of all of them
-- are no negative `int`s of 64 bits, the mapping that createIDMap makes translates an id that is not
-- negative to the id that stands in its place where the sorted ranges are laid end to end, and it
-- translates the ids below the number of ids in the ranges and no others.
pub to_host-create_id_map :
    (sort : (SubIdRange → SubIdRange → Bool) → List SubIdRange → List SubIdRange)
    → ((less : SubIdRange → SubIdRange → Bool) (rs : List SubIdRange) → Perm (sort less rs) rs)
    → (rs : List SubIdRange) (id : ℤ) → ranges_fit rs ≡ true
    → total rs < 2 ^ 63
    → pos 0 ≤ℤ id
    → let host = to_host id (some (create_id_map sort rs)) in
      (host ≡ nth_id (sort (λ a b. ltb_ℤ a.start b.start) rs) id)
      × (is_some host ≡ ltb_ℤ id (pos (total rs)))
unfolding to_host create_id_map
to_host-create_id_map sort permutes rs id fit small h =
    let sorted = sort (λ a b. ltb_ℤ a.start b.start) rs in
    let p = permutes (λ a b. ltb_ℤ a.start b.start) rs in
    let (same, keeps) = Perm-Alike p in
    let fit' = keeps ∙ fit in
    let found : to_host_from id (maps_from (pos 0) sorted) ≡ nth_id sorted id =
      to_host-maps_from (pos 0) sorted id fit' (room_all sorted (rw same small)) h
      ∙ ap (nth_id sorted) (eq_of_parts _ _ (ground (arith, -ℤ_parts id (pos 0)))) in
    (found, ap is_some found ∙ is_some-nth_id sorted id fit' h ∙ ap (λ n. ltb_ℤ id (pos n)) same)
  where
    room_all : (qs : List SubIdRange) → total qs < 2 ^ 63 → room (pos 0) qs ≡ true
    room_all qs e = ground (arith, +ℤ_parts (pos 0) (pos (total qs)))
