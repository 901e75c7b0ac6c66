-- ===== src/Containers/Entries.antt =====
-- What Create and Delete of containers.go do to the entries of the tables.
use containers_storage.Prelude.{
  ℕ, ◌<◌, ◌≡◌, ◌∷◌, ◌++◌, ◌&&◌, ◌||◌, refl, subst, true, false, none, some, List, [], arith, Str,
  str_eq, elem, is_some, if◌then◌else◌, Bool-cases, Option-cases, inl, inr,
}
use containers_storage.Prelude.GoMap
use containers_storage.Prelude.GoMap.{GoMap}
use containers_storage.Prelude.Exec.{ok, continue-ok}
use containers_storage.TruncIndex.Prefixes.{proper}
use containers_storage.Names.{dedupe_names}
use containers_storage.Containers.{Container, ContainerStore, Platform}
use containers_storage.Containers.Create.{
  ContainerOptions, option_flags, any_in_use, new_container, enter, save_new, create_at, choose_id,
  create,
}
use containers_storage.Containers.Frame.{SameTables, save-SameTables}
use containers_storage.Containers.Invariant.Enter.{get-name_all, any_in_use-none}
use containers_storage.Containers.Invariant.Create.{choose_id-SameTables}

-- `t` is `s` with the record `c` listed last and entered under its id and its names, which were free,
-- under its layer, whoever had that before, and in the index.
pub record Added {p : Platform} (c : Container) (s t : ContainerStore p) : Type 0 where
  pub fresh : GoMap.get s.byid c.id ≡ none
  pub free : (n : Str) → elem n c.names ≡ true → GoMap.get s.byname n ≡ none
  pub stored : t.heap.cell s.heap.next ≡ c
  pub kept : (q : ℕ) → q < s.heap.next → t.heap.cell q ≡ s.heap.cell q
  pub by_id :
      (k : Str)
      → GoMap.get t.byid k ≡ (if str_eq c.id k then some s.heap.next else GoMap.get s.byid k)
  pub by_name :
      (n : Str)
      → GoMap.get t.byname n ≡ (if elem n c.names then some s.heap.next else GoMap.get s.byname n)
  pub by_layer :
      (l : Str)
      → GoMap.get t.bylayer l
        ≡ (if str_eq c.layer_id l then some s.heap.next else GoMap.get s.bylayer l)
  pub listed : t.containers ≡ s.containers ++ s.heap.next ∷ []
  pub indexed :
      (k : Str)
      → p.index.contains t.idindex k
        ≡ (proper c.id && str_eq c.id k) || p.index.contains s.idindex k

-- The record holds what the caller gave.
abbrev pub Asked : List Str → Str → Str → Str → Container → Type 0
Asked names image layer metadata c =
    (c.names ≡ dedupe_names names)
    × (c.image_id ≡ image)
    × (c.layer_id ≡ layer)
    × (c.metadata ≡ metadata)

module _ {p : Platform} where
  enter-Added :
      (c : Container) (s t : ContainerStore p)
      → GoMap.get s.byid c.id ≡ none
      → any_in_use s.byname c.names ≡ false
      → SameTables (enter c s) t
      → Added c s t
  unfolding enter
  enter-Added c s t unused free e = record {
    fresh = unused;
    free = λ n m. any_in_use-none s.byname c.names n free m;
    stored = rw e (ground arith);
    kept = λ q h. rw e (ground arith);
    by_id = λ k. rw e (GoMap.get-put s.byid c.id s.heap.next k);
    by_name = λ n. rw e (get-name_all s.byname c.names s.heap.next n);
    by_layer = λ l. rw e (GoMap.get-put s.bylayer c.layer_id s.heap.next l);
    listed = rw e refl;
    indexed = λ k. rw e (p.index.contains-add s.idindex c.id k);
  }

  save_new-ok : (c d : Container) (s : ContainerStore p) → (save_new c s).0 ≡ ok d → c ≡ d
  unfolding save_new
  save_new-ok c d s h = ground arith

  save_new-SameTables :
      (c : Container) (s : ContainerStore p) → SameTables (enter c s) (save_new c s).1
  unfolding save_new
  save_new-SameTables c s = ground (arith, save-SameTables (enter c s))

  -- Where Create at an id succeeds, the id and the names were free, and the new record is entered
  -- under exactly these; everything else is as before.
  pub create_at-Added :
      (id : Str) (names : List Str) (image layer metadata : Str) (o : ContainerOptions)
      (s : ContainerStore p) (c : Container)
      → (create_at id names image layer metadata o s).0 ≡ ok c
      → (c.id ≡ id)
        × Asked names image layer metadata c
        × Added c s (create_at id names image layer metadata o s).1
  unfolding create_at
  create_at-Added id names image layer metadata o s c h =
      elim (Bool-cases (is_some (GoMap.get s.byid id))) [
        | inl used ↦ ground arith
        | inr unused ↦ elim (Option-cases (option_flags o)) [
          | inl e ↦ ground arith
          | inr (flags, e) ↦ elim (Bool-cases (any_in_use s.byname (dedupe_names names))) [
            | inl taken ↦ ground arith
            | inr free ↦
                let n : Container =
                  new_container id (dedupe_names names) image layer metadata o flags
                    (p.env.now s.world) in
                let same : n ≡ c = save_new-ok n c s (ground arith) in
                let added =
                  enter-Added n s (save_new n s).1 (ground arith) free (save_new-SameTables n s) in
                rw (unused, e, free)
                  (subst
                    (λ d.
                      (d.id ≡ id) × Asked names image layer metadata d × Added d s (save_new n s).1)
                    same (refl, (refl, refl, refl, refl), added))
          ]
        ]
      ]

  Added-world :
      (c : Container) (s t : ContainerStore p) (w : p.env.World)
      → Added c (record s { world = w }) t
      → Added c s t
  Added-world c s t w a = record {
    fresh = a.fresh;
    free = a.free;
    stored = a.stored;
    kept = a.kept;
    by_id = a.by_id;
    by_name = a.by_name;
    by_layer = a.by_layer;
    listed = a.listed;
    indexed = a.indexed;
  }

  choose_id_given :
      (draws fuel : ℕ) (id : Str) (s : ContainerStore p)
      → str_eq id [] ≡ false
      → (choose_id draws fuel id s).0 ≡ ok id
  unfolding choose_id
  choose_id_given draws fuel id s h = rw h

  -- Where Create succeeds, the container it returns has the names without repetitions, the image, the
  -- layer and the metadata that were asked for, and the id, if that is not empty. The id and the names
  -- were free; the record is listed last, after the same others, and entered under exactly its id and
  -- names; its layer leads to it, whichever record it led to before, and a proper id is added to the
  -- index. All other ids, names and layers lead where they did, and the other records are as before.
  pub create-Added :
      (draws fuel : ℕ) (id : Str) (names : List Str) (image layer metadata : Str)
      (o : ContainerOptions) (s : ContainerStore p) (c : Container)
      → (create draws fuel id names image layer metadata o s).0 ≡ ok c
      → (str_eq id [] ≡ false → c.id ≡ id)
        × Asked names image layer metadata c
        × Added c s (create draws fuel id names image layer metadata o s).1
  unfolding create
  create-Added draws fuel id names image layer metadata o s c h =
      let t = (choose_id draws fuel id s).1 in
      let (chosen, e, g) = continue-ok (choose_id draws fuel id s).0 _ t h in
      let (i, n, a) = create_at-Added chosen names image layer metadata o t c g in
      rw e (
        λ given. ground (arith, choose_id_given draws fuel id s, e, i),
        n,
        Added-world c s _ t.world (
            subst (λ u. Added c u (create_at chosen names image layer metadata o t).1)
              (choose_id-SameTables draws fuel id s) a),
      )
