-- ===== src/Containers/Frame.antt =====
-- Methods of containers.go that touch the world alone: Save and the choice of an id.
use containers_storage.Prelude.{ℕ, zero, suc, ◌≡◌, refl, sym, subst, arith}
use containers_storage.StringId.{generate_id}
use containers_storage.Containers.{ContainerStore, Platform, save, on_world}
use containers_storage.Containers.Create.{fresh_id}
use containers_storage.Containers.Invariant.{Inv}

-- `t` is `s` but for the world.
abbrev pub SameTables : {p : Platform} → ContainerStore p → ContainerStore p → Type 0
SameTables s t = t ≡ record s { world = t.world }

module _ {p : Platform} where
  pub save-SameTables : (s : ContainerStore p) → SameTables s (save s).1
  unfolding save
  save-SameTables s = ground arith

  pub fresh_id-SameTables :
      (draws fuel : ℕ) (s : ContainerStore p) → SameTables s (fresh_id draws fuel s).1
  unfolding fresh_id
  fresh_id-SameTables draws zero s = refl
  fresh_id-SameTables draws (suc fuel) s =
      ground (arith, fresh_id-SameTables draws fuel (on_world (generate_id p.env.random draws) s).1)

  -- Only the agreement of the tables matters.
  pub Inv-world : (s : ContainerStore p) (w : p.env.World) → Inv s → Inv (record s { world = w })
  Inv-world s w v = record {
    ids = v.ids;
    listed = v.listed;
    once = v.once;
    allocated = v.allocated;
    named = v.named;
    names = v.names;
    layered = v.layered;
    index_valid = v.index_valid;
    indexed = v.indexed;
  }

  pub SameTables-Inv : {s t : ContainerStore p} → SameTables s t → Inv s → Inv t
  SameTables-Inv {s} {t} e v = subst Inv (sym e) (Inv-world s t.world v)

  pub save-Inv : (s : ContainerStore p) → Inv s → Inv (save s).1
  save-Inv s v = SameTables-Inv (save-SameTables s) v
