-- ===== src/Containers/Invariant/Create.antt =====
-- Create of containers.go keeps the tables in agreement, whatever it returns.
use containers_storage.Prelude.{ℕ, List, arith, Str, is_some, Bool-cases, Option-cases, inl, inr}
use containers_storage.Prelude.GoMap
use containers_storage.Prelude.GoMap.{GoMap}
use containers_storage.Prelude.Exec.{continue_keeps}
use containers_storage.Names.{dedupe_names}
use containers_storage.Containers.{Container, ContainerStore, Platform}
use containers_storage.Containers.Create.{
  ContainerOptions, option_flags, any_in_use, enter, save_new, create_at, choose_id, create,
}
use containers_storage.Containers.Frame.{SameTables, save-Inv, SameTables-Inv, fresh_id-SameTables}
use containers_storage.Containers.Invariant.{Inv}
use containers_storage.Containers.Invariant.Enter.{enter-Inv}

module _ {p : Platform} where
  save_new-Inv : (c : Container) (s : ContainerStore p) → Inv (enter c s) → Inv (save_new c s).1
  unfolding save_new
  save_new-Inv c s v = ground (arith, save-Inv (enter c s) v)

  pub create_at-Inv :
      (id : Str) (names : List Str) (image layer metadata : Str) (o : ContainerOptions)
      (s : ContainerStore p)
      → Inv s
      → Inv (create_at id names image layer metadata o s).1
  unfolding create_at
  create_at-Inv id names image layer metadata o s v =
      elim (Bool-cases (is_some (GoMap.get s.byid id))) [
        | inl used ↦ rw used v
        | inr unused ↦ elim (Option-cases (option_flags o)) [
          | inl e ↦ rw (unused, e) v
          | inr (flags, e) ↦ elim (Bool-cases (any_in_use s.byname (dedupe_names names))) [
            | inl taken ↦ rw (unused, e, taken) v
            | inr free ↦
                rw (unused, e, free) (save_new-Inv _ s (enter-Inv _ s v (ground arith) free))
          ]
        ]
      ]

  pub choose_id-SameTables :
      (draws fuel : ℕ) (id : Str) (s : ContainerStore p)
      → SameTables s (choose_id draws fuel id s).1
  unfolding choose_id
  choose_id-SameTables draws fuel id s = ground (arith, fresh_id-SameTables draws fuel s)

  pub create-Inv :
      (draws fuel : ℕ) (id : Str) (names : List Str) (image layer metadata : Str)
      (o : ContainerOptions) (s : ContainerStore p)
      → Inv s
      → Inv (create draws fuel id names image layer metadata o s).1
  unfolding create
  create-Inv draws fuel id names image layer metadata o s v =
      let kept : Inv (choose_id draws fuel id s).1 =
        SameTables-Inv (choose_id-SameTables draws fuel id s) v in
      continue_keeps Inv (choose_id draws fuel id s).0 _ (choose_id draws fuel id s).1 kept
        (λ chosen _. create_at-Inv chosen names image layer metadata o _ kept)
