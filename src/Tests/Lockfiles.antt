-- ===== src/Tests/Lockfiles.antt =====
-- Lock files at concrete inputs.
use containers_storage.Lockfile.LastWriter.{happen}
use containers_storage.Prelude.{str_eq}
use containers_storage.Lockfile.{take_lock}
use containers_storage.Lockfile.{lock_mutex}
use containers_storage.Prelude.{ℕ, ◌+◌, ◌≡◌, refl, true, false, List, [], ◌∷◌, map, codes, arith}
use containers_storage.Prelude.Exec.{ok}
use containers_storage.Lockfile.{
  write_lock, Lockfile, RwMutex, create_locker_for_path, hold, is_locked, unlock,
}
use containers_storage.Lockfile.Processes.{
  System, Reachable, starts, enters, takes, started, entered, taken, set_process,
}
use containers_storage.Lockfile.Exclusion.{writer_excludes}
use containers_storage.Lockfile.LastWriter.{
  Users, Event, touches, asks, answers, specified_answers, Known, Refines, answers_refine,
}

abbrev for_writing : RwMutex
for_writing = record { readers = 0; writer = true }

abbrev all_started : System
all_started = λ i. started false (codes "x")

abbrev one_entered : System
one_entered = set_process 0 (entered write_lock for_writing (all_started 0)) all_started

abbrev one_writes : System
one_writes =
    set_process 0 (taken write_lock (hold write_lock false (one_entered 0).lock) (one_entered 0))
      one_entered

writes : Reachable one_writes
unfolding create_locker_for_path hold lock_mutex take_lock
writes =
    takes 0 write_lock (hold write_lock false (one_entered 0).lock) one_entered
      (enters 0 write_lock for_writing all_started (starts (λ i. false) (λ i. codes "x")) refl)
      (omega arith) (λ j d c. ground arith) refl

writer_excludes_example :
    ((one_writes 0).writing ≡ 1)
    × ((one_writes 0).reading ≡ 0)
    × (is_locked (one_writes 0).lock ≡ true)
    × ((one_writes 1).reading + (one_writes 1).writing ≡ 0)
    × ((unlock (one_writes 0).lock).0 ≡ ok true)
writer_excludes_example = writer_excludes one_writes 0 1 writes (omega arith) refl

-- Locks that are held for writing, each with an id of its own, on an empty file.
abbrev writer_lock : ℕ → Lockfile
writer_lock i = record (create_locker_for_path false (codes "a")) {
  lw = i ∷ i ∷ [];
  locked = true;
  counter = 1;
}

abbrev at_first : Users
at_first = record { content = []; locks = writer_lock }

abbrev nobody_knows : Known
nobody_knows = record { touched = false; knows = λ i. false }

at_first-Refines : Refines 2 at_first nobody_knows
at_first-Refines = record {
  ids = λ i. refl;
  written = λ t. cc;
  unwritten = λ t. omega arith;
  nobody = λ i t. refl;
  known = λ i t. cc;
}

-- The first user writes and asks; the second asks twice.
abbrev some_events : List Event
some_events = touches 0 (500 ∷ 501 ∷ []) ∷ asks 0 ∷ asks 1 ∷ asks 1 ∷ []

some_answers : specified_answers some_events nobody_knows ≡ false ∷ false ∷ true ∷ false ∷ []
unfolding specified_answers
some_answers = refl

fresh_id : (j : ℕ) → str_eq (j ∷ j ∷ []) (500 ∷ 501 ∷ []) ≡ false
unfolding str_eq
fresh_id j = ground arith

answers_refine_example :
    answers some_events at_first ≡ map ok (specified_answers some_events nobody_knows)
unfolding is_locked create_locker_for_path happen
answers_refine_example =
    answers_refine 2 some_events at_first nobody_knows at_first-Refines
      ((refl, refl, fresh_id), (refl, (refl, (refl, tt))))
