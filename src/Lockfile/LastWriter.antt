-- ===== src/Lockfile/LastWriter.antt =====
-- Touch and Modified of pkg/lockfile/lockfile_unix.go tell the users of a lock file of one another's
-- changes: they refine a specification that says for each user whether it knows the last change.
use containers_storage.Prelude.{
  ℕ, ◌≤◌, ◌<◌, ◌≡◌, refl, Bool, true, false, not, List, [], ◌∷◌, map, Str, str_eq, str_eq_iff,
  length, take, drop, ltb, if◌then◌else◌, ◌==◌, ==_iff, arith, Bool-cases, zero, suc, sym, ap,
  str_eq_refl, inl, inr,
}
use containers_storage.Prelude.Exec.{Result, ok, fails, panics, diverges}
use mathlib.Core.List.{append-nil}
use containers_storage.Lockfile.{Lockfile, is_locked, overwritten, full, touch, modified}

-- The content of the file, and the locks of its users.
pub record Users : Type 0 where
  pub content : Str
  pub locks : ℕ → Lockfile

-- What happens at the file: a user records itself as the last writer with a new id, or asks whether
-- another has.
pub data Event : Type 0 where
  touches : ℕ → Str → Event
  asks : ℕ → Event

abbrev pub set_lock : ℕ → Lockfile → (ℕ → Lockfile) → ℕ → Lockfile
set_lock i l f j = if i == j then l else f j

-- The state after an event, and what Modified answers.
abbrev pub answer : Result (Unit {0}) → Result Bool
answer (ok t) = ok false
answer (fails e) = fails e
answer panics = panics
answer diverges = diverges

unfoldable pub happen : Event → Users → Result Bool × Users
unfolding touch modified
happen (touches i id) u =
    let (r, (l, content)) = touch id full (u.locks i, u.content) in
    (answer r, record { content = content; locks = set_lock i l u.locks })
happen (asks i) u =
    let (r, l) = modified u.content (u.locks i) in (r, record u { locks = set_lock i l u.locks })

-- The specification: whether anybody has touched the file yet, and who knows the last change.
pub record Known : Type 0 where
  pub touched : Bool
  pub knows : ℕ → Bool

unfoldable pub specified : Event → Known → Bool × Known
specified (touches i id) k = (false, record { touched = true; knows = λ j. i == j })
specified (asks i) k =
    (not (k.knows i), record k { knows = λ j. if i == j then k.touched else k.knows j })

-- Ids have `width` bytes, all locks are held, for writing where they touch, and an id is new to all.
abbrev pub Allowed : ℕ → Event → Users → Type 0
Allowed width (touches i id) u =
    (is_locked (u.locks i) ≡ true)
    × (length id ≡ width)
    × ((j : ℕ) → str_eq (u.locks j).lw id ≡ false)
Allowed width (asks i) u = (u.locks i).locked ≡ true

-- The file is as the specification says.
pub record Refines (width : ℕ) (u : Users) (k : Known) : Type 0 where
  pub ids : (i : ℕ) → length (u.locks i).lw ≡ width
  pub written : k.touched ≡ true → length u.content ≡ width
  pub unwritten : k.touched ≡ false → length u.content < width
  pub nobody : (i : ℕ) → k.touched ≡ false → k.knows i ≡ false
  pub known : (i : ℕ) → k.touched ≡ true → k.knows i ≡ str_eq u.content (u.locks i).lw

take_all : (n : ℕ) (xs : Str) → length xs ≤ n → take n xs ≡ xs
take_all zero [] h = refl
take_all (suc n) [] h = refl
take_all zero (x ∷ xs) h = elim h [ ]
take_all (suc n) (x ∷ xs) h = ap (◌∷◌ x) (take_all n xs (omega arith))

drop_all : (n : ℕ) (xs : Str) → length xs ≤ n → drop n xs ≡ []
drop_all zero [] h = refl
drop_all (suc n) [] h = refl
drop_all zero (x ∷ xs) h = elim h [ ]
drop_all (suc n) (x ∷ xs) h = drop_all n xs (omega arith)

overwritten_all : (id content : Str) → length content ≤ length id → overwritten id content ≡ id
overwritten_all id content h = rw (drop_all (length id) content h) (append-nil id)

modified_touched :
    (content : Str) (l : Lockfile)
    → l.locked ≡ true
    → length content ≡ length l.lw
    → modified content l ≡ (ok (not (str_eq content l.lw)), record l { lw = content })
unfolding modified
modified_touched content l held same =
    let read : take (length l.lw) content ≡ content =
      take_all (length l.lw) content (omega (arith, same)) in
    let long : ltb (length content) (length l.lw) ≡ false = ground arith in
    rw (held, long, read) refl

modified_untouched :
    (content : Str) (l : Lockfile)
    → l.locked ≡ true
    → length content < length l.lw
    → modified content l ≡ (ok true, l)
unfolding modified
modified_untouched content l held less =
    let short : ltb (length content) (length l.lw) ≡ true = ground arith in rw (held, short) refl

module _ (width : ℕ) (u : Users) (k : Known) (v : Refines width u k) where
  content_fits : length u.content ≤ width
  content_fits = elim (Bool-cases k.touched) [
    | inl t ↦ omega (arith, v.written t)
    | inr f ↦ omega (arith, v.unwritten f)
  ]

  touches-Refines :
      (i : ℕ) (id : Str)
      → Allowed width (touches i id) u
      → ((happen (touches i id) u).0 ≡ ok false)
        × Refines width (happen (touches i id) u).1 (specified (touches i id) k).1
  unfolding happen specified
  touches-Refines i id (held, long, new) =
      let whole : overwritten id u.content ≡ id =
        overwritten_all id u.content (omega (arith, content_fits, long)) in
      rw (held, whole)
        (
          refl,
          record {
            ids = λ j. elim (Bool-cases (i == j)) [ inl e ↦ rw e long | inr e ↦ rw e (v.ids j) ];
            written = λ t. long;
            unwritten = λ t. cc;
            nobody = λ j t. cc;
            known = λ j t. elim (Bool-cases (i == j)) [
              | inl e ↦ rw e (sym (str_eq_refl id))
              | inr e ↦ rw e (
                  ground (arith, new j, str_eq_iff id (u.locks j).lw, str_eq_iff (u.locks j).lw id))
            ];
          },
        )

  asks-Refines :
      (i : ℕ)
      → Allowed width (asks i) u
      → ((happen (asks i) u).0 ≡ ok (specified (asks i) k).0)
        × Refines width (happen (asks i) u).1 (specified (asks i) k).1
  unfolding happen specified
  asks-Refines i held = elim (Bool-cases k.touched) [
    | inl t ↦
        rw
          (
            modified_touched u.content (u.locks i) held (omega (arith, v.written t, v.ids i)),
            t,
            v.known i t,
          )
          (
            refl,
            record {
              ids = λ j. elim (Bool-cases (i == j)) [
                | inl e ↦ rw e (v.written t)
                | inr e ↦ rw e (v.ids j)
              ];
              written = λ _. v.written t;
              unwritten = λ f. cc;
              nobody = λ j f. cc;
              known = λ j _. elim (Bool-cases (i == j)) [
                | inl e ↦ rw e (sym (str_eq_refl u.content))
                | inr e ↦ rw e (v.known j t)
              ];
            },
          )
    | inr f ↦
        rw
          (
            modified_untouched u.content (u.locks i) held (omega (arith, v.unwritten f, v.ids i)),
            v.nobody i f,
          )
          (
            refl,
            record {
              ids = λ j. elim (Bool-cases (i == j)) [
                | inl e ↦ rw (e, sym ((==_iff i j).0 e)) (v.ids i)
                | inr e ↦ rw e (v.ids j)
              ];
              written = λ t. cc;
              unwritten = λ _. v.unwritten f;
              nobody = λ j _. elim (Bool-cases (i == j)) [
                | inl e ↦ rw e f
                | inr e ↦ rw e (v.nobody j f)
              ];
              known = λ j t. cc;
            },
          )
  ]

  happen-Refines :
      (e : Event)
      → Allowed width e u
      → ((happen e u).0 ≡ ok (specified e k).0) × Refines width (happen e u).1 (specified e k).1
  unfolding specified
  happen-Refines (touches i id) a = touches-Refines i id a
  happen-Refines (asks i) a = asks-Refines i a

-- What the calls of Modified answer along a run, in the code and in the specification; Touch counts as
-- the answer `false`.
unfoldable pub answers : List Event → Users → List (Result Bool)
unfolding happen
answers [] u = []
answers (e ∷ es) u = (happen e u).0 ∷ answers es (happen e u).1

unfoldable pub specified_answers : List Event → Known → List Bool
unfolding specified
specified_answers [] k = []
specified_answers (e ∷ es) k = (specified e k).0 ∷ specified_answers es (specified e k).1

abbrev pub AllAllowed : ℕ → List Event → Users → Type 0
AllAllowed width [] u = Unit
AllAllowed width (e ∷ es) u = Allowed width e u × AllAllowed width es (happen e u).1

-- Where the file is as the specification says and each Touch writes a new id in full under the write
-- lock, Modified answers along any run of Touch and Modified of any users exactly as specified: whether
-- somebody else was the last to touch the file since this user last touched it or asked, or nobody has
-- touched it at all.
pub answers_refine :
    (width : ℕ) (es : List Event) (u : Users) (k : Known)
    → Refines width u k
    → AllAllowed width es u
    → answers es u ≡ map ok (specified_answers es k)
unfolding answers specified_answers
answers_refine width [] u k v a = refl
answers_refine width (e ∷ es) u k v (here, later) =
    let (same, next) = happen-Refines width u k v e here in
    rw same (
      ap (◌∷◌ (ok (specified e k).0))
        (answers_refine width es (happen e u).1 (specified e k).1 next later))
