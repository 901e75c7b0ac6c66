-- ===== src/IdTools/Translate.antt =====
-- Translation to the host and back, of pkg/idtools/idtools.go.
use containers_storage.Prelude.{
  ◌≡◌, refl, inl, inr, Bool, true, false, ◌&&◌, ◌||◌, Option, none, some, List, [], ◌∷◌, Bool-cases,
  arith, subst, ap, if◌then◌else◌,
}
use containers_storage.Prelude.Int.{
  ℤ, pos, ◌+ℤ◌, ◌-ℤ◌, leb_ℤ, is_id, add_int, sub_int, add_int-fits, sub_int-fits, +ℤ_parts,
  -ℤ_parts, eq_of_parts,
}
use containers_storage.IdTools.{
  IdMap, in_range, to_host_from, to_container_from, to_host, to_container,
}

-- The ids of a mapping, and those after its ranges, are no negative `int`s.
abbrev pub map_fits : IdMap → Bool
map_fits m =
    is_id m.container_id
    && is_id m.host_id
    && is_id m.size
    && is_id (m.container_id +ℤ m.size)
    && is_id (m.host_id +ℤ m.size)

unfoldable pub maps_fit : List IdMap → Bool
maps_fit [] = true
maps_fit (m ∷ ms) = map_fits m && maps_fit ms

-- The translations without bounds on integers.
abbrev pub within : ℤ → ℤ → ℤ → Bool
within start size id = leb_ℤ start id && leb_ℤ id (start +ℤ size -ℤ pos 1)

unfoldable pub host_exact : ℤ → List IdMap → Option ℤ
host_exact id [] = none
host_exact id (m ∷ ms) =
    let rest = host_exact id ms in
    if within m.container_id m.size id then some (m.host_id +ℤ (id -ℤ m.container_id)) else rest

container_exact : ℤ → List IdMap → Option ℤ
container_exact id [] = none
container_exact id (m ∷ ms) =
    let rest = container_exact id ms in
    if within m.host_id m.size id then some (m.container_id +ℤ (id -ℤ m.host_id)) else rest

-- With ids that fit, nothing wraps around.
pub in_range-within :
    (start size id : ℤ)
    → is_id start ≡ true
    → is_id size ≡ true
    → is_id (start +ℤ size) ≡ true
    → in_range start size id ≡ within start size id
in_range-within start size id a b c =
    rw
      (
        add_int-fits start size (ground arith),
        sub_int-fits (start +ℤ size) (pos 1) (ground (arith, -ℤ_parts (start +ℤ size) (pos 1))),
      )
      refl

-- Where an id of one range goes fits, too.
pub moved_fits :
    (a b size id : ℤ)
    → is_id a ≡ true
    → is_id b ≡ true
    → is_id size ≡ true
    → is_id (b +ℤ size) ≡ true
    → within a size id ≡ true
    → add_int b (sub_int id a) ≡ b +ℤ (id -ℤ a)
moved_fits a b size id ha hb hs hc h =
    rw
      (
        sub_int-fits id a
            (ground (arith, +ℤ_parts a size, -ℤ_parts (a +ℤ size) (pos 1), -ℤ_parts id a)),
        add_int-fits b (id -ℤ a) (
            ground (
              arith,
              +ℤ_parts a size,
              -ℤ_parts (a +ℤ size) (pos 1),
              -ℤ_parts id a,
              +ℤ_parts b (id -ℤ a),
              +ℤ_parts b size,
            )),
      )
      refl

pub to_host_from-exact :
    (ms : List IdMap) (id : ℤ) → maps_fit ms ≡ true → to_host_from id ms ≡ host_exact id ms
unfolding to_host_from host_exact maps_fit
to_host_from-exact [] id h = refl
to_host_from-exact (m ∷ ms) id h =
    let rest = to_host_from-exact ms id (ground arith) in
    let same =
      in_range-within m.container_id m.size id (ground arith) (ground arith) (ground arith) in
    elim (Bool-cases (within m.container_id m.size id)) [
      | inl here ↦
          rw (same, here)
            (ap some (
              moved_fits m.container_id m.host_id m.size id (ground arith) (ground arith)
                (ground arith) (ground arith) here))
      | inr later ↦ rw (same, later) rest
    ]

to_container_from-exact :
    (ms : List IdMap) (id : ℤ)
    → maps_fit ms ≡ true
    → to_container_from id ms ≡ container_exact id ms
unfolding to_container_from container_exact maps_fit
to_container_from-exact [] id h = refl
to_container_from-exact (m ∷ ms) id h =
    let rest = to_container_from-exact ms id (ground arith) in
    let same = in_range-within m.host_id m.size id (ground arith) (ground arith) (ground arith) in
    elim (Bool-cases (within m.host_id m.size id)) [
      | inl here ↦
          rw (same, here)
            (ap some (
              moved_fits m.host_id m.container_id m.size id (ground arith) (ground arith)
                (ground arith) (ground arith) here))
      | inr later ↦ rw (same, later) rest
    ]

-- No id of the host is in two of the ranges.
abbrev pub host_apart : IdMap → IdMap → Bool
host_apart m n = leb_ℤ (m.host_id +ℤ m.size) n.host_id || leb_ℤ (n.host_id +ℤ n.size) m.host_id

unfoldable pub apart_from : IdMap → List IdMap → Bool
apart_from m [] = true
apart_from m (n ∷ ns) = host_apart m n && apart_from m ns

unfoldable pub hosts_apart : List IdMap → Bool
unfolding apart_from
hosts_apart [] = true
hosts_apart (m ∷ ms) = apart_from m ms && hosts_apart ms

-- An id in a range goes to the same place of the other range.
moved : (a b size id : ℤ) → within a size id ≡ true → within b size (b +ℤ (id -ℤ a)) ≡ true
moved a b size id h = ground (
  arith,
  +ℤ_parts a size,
  -ℤ_parts (a +ℤ size) (pos 1),
  -ℤ_parts id a,
  +ℤ_parts b (id -ℤ a),
  +ℤ_parts b size,
  -ℤ_parts (b +ℤ size) (pos 1),
)

moved_back : (a b id : ℤ) → a +ℤ ((b +ℤ (id -ℤ a)) -ℤ b) ≡ id
moved_back a b id =
    let host = b +ℤ (id -ℤ a) in
    eq_of_parts (a +ℤ (host -ℤ b)) id
      (omega (arith, -ℤ_parts id a, +ℤ_parts b (id -ℤ a), -ℤ_parts host b, +ℤ_parts a (host -ℤ b)))

apart_range :
    (m n : IdMap) (id : ℤ)
    → host_apart m n ≡ true
    → within n.host_id n.size id ≡ true
    → within m.host_id m.size id ≡ false
apart_range m n id h e = ground (
  arith,
  +ℤ_parts m.host_id m.size,
  +ℤ_parts n.host_id n.size,
  -ℤ_parts (m.host_id +ℤ m.size) (pos 1),
  -ℤ_parts (n.host_id +ℤ n.size) (pos 1),
)

-- What a later range translates to is not in a range that is apart from all of them.
host_exact-apart :
    (m : IdMap) (ms : List IdMap) (id host : ℤ)
    → apart_from m ms ≡ true
    → host_exact id ms ≡ some host
    → within m.host_id m.size host ≡ false
unfolding apart_from host_exact
host_exact-apart m [] id host h e = cc
host_exact-apart m (n ∷ ns) id host h e = elim (Bool-cases (within n.container_id n.size id)) [
  | inl here ↦ apart_range m n host (ground arith) (
      subst (λ x. within n.host_id n.size x ≡ true) (ground arith)
        (moved n.container_id n.host_id n.size id here))
  | inr later ↦ host_exact-apart m ns id host (ground arith) (ground arith)
]

container_exact-host_exact :
    (ms : List IdMap) (id host : ℤ)
    → hosts_apart ms ≡ true
    → host_exact id ms ≡ some host
    → container_exact host ms ≡ some id
unfolding hosts_apart host_exact container_exact
container_exact-host_exact [] id host h e = cc
container_exact-host_exact (m ∷ ms) id host h e =
    elim (Bool-cases (within m.container_id m.size id)) [
      | inl here ↦
          let same : m.host_id +ℤ (id -ℤ m.container_id) ≡ host = ground arith in
          subst (λ x. container_exact x (m ∷ ms) ≡ some id) same
            (rw (moved m.container_id m.host_id m.size id here)
              (ap some (moved_back m.container_id m.host_id id)))
      | inr later ↦
          let found : host_exact id ms ≡ some host = ground arith in
          rw (host_exact-apart m ms id host (ground arith) found)
            (container_exact-host_exact ms id host (ground arith) found)
    ]

-- Where the ids of the mappings and those after their ranges are no negative `int`s of 64 bits, and no
-- two ranges of the host overlap, an id that toHost translates is given back by toContainer.
pub to_container-to_host :
    (ms : List IdMap) (id host : ℤ)
    → maps_fit ms ≡ true
    → hosts_apart ms ≡ true
    → to_host id (some ms) ≡ some host
    → to_container host (some ms) ≡ some id
unfolding to_host to_container
to_container-to_host ms id host fit apart e = rw (to_container_from-exact ms host fit) (
    container_exact-host_exact ms id host apart
      (subst (λ o. o ≡ some host) (to_host_from-exact ms id fit) e))
