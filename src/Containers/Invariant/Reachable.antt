-- ===== src/Containers/Invariant/Reachable.antt =====
-- The calls of containers.go, one after the other, and the tables: what they keep as long as the
-- files they load are whole.
use containers_storage.Prelude.{
  ℕ, ◌≡◌, refl, Bool, true, false, ◌||◌, List, [], ◌∷◌, arith, Str, str_eq, distinct, Bool-cases,
  inl, inr,
}
use containers_storage.Prelude.GoMap
use containers_storage.Prelude.Exec.{
  WhereTrue, size_unknown, digest_unknown, Result, ok, fails, panics, diverges,
}
use containers_storage.Env.{FileRead, contents, missing, unreadable}
use containers_storage.Containers.{
  Container, ContainerStore, Platform, Value, save, containers_path,
}
use containers_storage.Containers.Create.{ContainerOptions, create}
use containers_storage.Containers.Delete.{delete, wipe}
use containers_storage.Containers.Changes.{set_names, set_metadata, set_flag, clear_flag}
use containers_storage.Containers.BigData.{set_big_data, big_data_size, big_data_digest}
use containers_storage.Containers.Load.{
  blank, rebuild, load_data, load_read, load, load_if, reload_if_changed, alloc_all, load_all,
}
use containers_storage.Containers.Frame.{save-Inv, Inv-world}
use containers_storage.Containers.Invariant.{Inv}
use containers_storage.Containers.Invariant.Alloc.{ids_of, names_distinct}
use containers_storage.Containers.Invariant.Rebuild.{rebuild-Inv}
use containers_storage.Containers.Invariant.Create.{create-Inv}
use containers_storage.Containers.Invariant.Delete.{delete-Inv, delete_all-Inv}
use containers_storage.Containers.Invariant.Fields.{
  set_names-Inv, set_metadata-Inv, set_flag-Inv, clear_flag-Inv, set_big_data-Inv,
  big_data_entry-Inv,
}

-- What the tables can be built from: records with different ids, none of which names itself twice,
-- and, where decoding fails, no record. It is a condition on one file, not on the decoder.
abbrev pub Decodes : Bool × List Container → Type 0
Decodes (good, cs) =
    (distinct (ids_of cs) ≡ true) × (names_distinct cs ≡ true) × (good ≡ false → cs ≡ [])

-- A file, as it is read, decodes to such records; no file decodes as an empty one, and a file that
-- cannot be read is not decoded.
unfoldable pub Intact : (Str → Bool × List Container) → FileRead → Type 0
Intact unmarshal (contents content) = Decodes (unmarshal content)
Intact unmarshal missing = Decodes (unmarshal [])
Intact unmarshal unreadable = Unit

module _ {p : Platform} where
  blank-Inv : (s : ContainerStore p) (cs : List Container) → cs ≡ [] → Inv (blank s cs)
  unfolding distinct names_distinct
  blank-Inv s cs e = rw e (unfold load_all alloc_all rebuild in rebuild-Inv s [] refl refl)

  load_data-Inv :
      (content : Str) (s : ContainerStore p)
      → Decodes (p.unmarshal content)
      → Inv (load_data content s).1
  unfolding load_data
  load_data-Inv content s decodes =
      let (unique, once, partial) = decodes in
      let built = rebuild-Inv s (p.unmarshal content).1 unique once in
      elim (Bool-cases (str_eq content [] || (p.unmarshal content).0)) [
        | inl e ↦ rw e (ground (arith, built, save-Inv _ built))
        | inr e ↦ rw e (blank-Inv s (p.unmarshal content).1 (partial (ground arith)))
      ]

  load_read-Inv :
      (f : FileRead) (s : ContainerStore p) → Intact p.unmarshal f → Inv s → Inv (load_read f s).1
  unfolding load_read Intact
  load_read-Inv (contents content) s whole v = load_data-Inv content s whole
  load_read-Inv missing s whole v = load_data-Inv [] s whole
  load_read-Inv unreadable s whole v = v

  load-Inv :
      (s : ContainerStore p)
      → Intact p.unmarshal (p.env.read_file s.world (containers_path s))
      → Inv s
      → Inv (load s).1
  unfolding load
  load-Inv s whole v = load_read-Inv (p.env.read_file s.world (containers_path s)) s whole v

  load_if-Inv :
      (r : Result Bool) (s : ContainerStore p)
      → WhereTrue r (Intact p.unmarshal (p.env.read_file s.world (containers_path s)))
      → Inv s
      → Inv (load_if r s).1
  unfolding load_if WhereTrue
  load_if-Inv (ok true) s whole v = load-Inv s whole v
  load_if-Inv (ok false) s whole v = v
  load_if-Inv (fails e) s whole v = v
  load_if-Inv panics s whole v = v
  load_if-Inv diverges s whole v = v

-- The calls of the container store that change it.
pub data Call : Type 0 where
  creates : ℕ → ℕ → Str → List Str → Str → Str → Str → ContainerOptions → Call
  deletes : Str → Call
  wipes : (List Str → List Str) → Call
  renames : Str → List Str → Call
  describes : Str → Str → Call
  flags : Str → Str → Value → Call
  unflags : Str → Str → Call
  stores : Str → Str → Str → Call
  sizes digests : Str → Str → Call
  saves loads reloads : Call

module _ {p : Platform} where
  pub step : ContainerStore p → Call → ContainerStore p
  step s (creates draws fuel id names image layer metadata o) =
      (create draws fuel id names image layer metadata o s).1
  step s (deletes id) = (delete id s).1
  step s (wipes order) = (wipe order s).1
  step s (renames id names) = (set_names id names s).1
  step s (describes id metadata) = (set_metadata id metadata s).1
  step s (flags id flag value) = (set_flag id flag value s).1
  step s (unflags id flag) = (clear_flag id flag s).1
  step s (stores id key content) = (set_big_data id key content s).1
  step s (sizes id key) = (big_data_size id key s).1
  step s (digests id key) = (big_data_digest id key s).1
  step s saves = (save s).1
  step s loads = (load s).1
  step s reloads = (reload_if_changed s).1

  pub run : ContainerStore p → List Call → ContainerStore p
  run s [] = s
  run s (c ∷ cs) = run (step s c) cs

module _ {p : Platform} where
  -- Load finds a whole file, and so does ReloadIfChanged where Modified says true, in the world that
  -- it leaves.
  unfoldable pub LoadsIntact : ContainerStore p → Call → Type 0
  unfolding Intact WhereTrue
  LoadsIntact s loads = Intact p.unmarshal (p.env.read_file s.world (containers_path s))
  LoadsIntact s reloads =
      WhereTrue (p.env.modified s.world).0
        (Intact p.unmarshal (p.env.read_file (p.env.modified s.world).1 (containers_path s)))
  LoadsIntact s c = Unit

  -- So it is wherever the calls of a run load a file.
  unfoldable pub RunIntact : ContainerStore p → List Call → Type 0
  unfolding LoadsIntact
  RunIntact s [] = Unit
  RunIntact s (c ∷ cs) = LoadsIntact s c × RunIntact (step s c) cs

  step-Inv : (s : ContainerStore p) (c : Call) → LoadsIntact s c → Inv s → Inv (step s c)
  unfolding step LoadsIntact containers_path wipe big_data_size big_data_digest reload_if_changed
  step-Inv s (creates draws fuel id names image layer metadata o) whole v =
      create-Inv draws fuel id names image layer metadata o s v
  step-Inv s (deletes id) whole v = delete-Inv id s v
  step-Inv s (wipes order) whole v = delete_all-Inv (order (GoMap.keys s.byid)) s v
  step-Inv s (renames id names) whole v = set_names-Inv id names s v
  step-Inv s (describes id metadata) whole v = set_metadata-Inv id metadata s v
  step-Inv s (flags id flag value) whole v = set_flag-Inv id flag value s v
  step-Inv s (unflags id flag) whole v = clear_flag-Inv id flag s v
  step-Inv s (stores id key content) whole v = set_big_data-Inv id key content s v
  step-Inv s (sizes id key) whole v =
      big_data_entry-Inv (λ c. c.big_data_sizes) size_unknown id key s v
  step-Inv s (digests id key) whole v =
      big_data_entry-Inv (λ c. c.big_data_digests) digest_unknown id key s v
  step-Inv s saves whole v = save-Inv s v
  step-Inv s loads whole v = load-Inv s whole v
  step-Inv s reloads whole v = load_if-Inv _ _ whole (Inv-world s _ v)

  -- Where each containers.json that a Load or ReloadIfChanged of the run reads, a missing one as an
  -- empty text, decodes to records with different ids, none of which names itself twice, and to no
  -- record where decoding fails, a run of Create, Delete, Wipe, SetNames, SetMetadata, SetFlag,
  -- ClearFlag, SetBigData, BigDataSize, BigDataDigest, Save, Load and ReloadIfChanged takes a
  -- container store whose tables agree to one whose tables agree, errors of the operating system
  -- included.
  pub run-Inv : (s : ContainerStore p) (cs : List Call) → RunIntact s cs → Inv s → Inv (run s cs)
  unfolding run RunIntact
  run-Inv s [] whole v = v
  run-Inv s (c ∷ cs) (whole, rest) v = run-Inv (step s c) cs rest (step-Inv s c whole v)
