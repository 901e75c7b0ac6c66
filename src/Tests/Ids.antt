-- ===== src/Tests/Ids.antt =====
-- Mappings and sets of ids at concrete inputs.
use mathlib.Core.List.Perm
use containers_storage.Prelude.Int.{◌+ℤ◌}
use containers_storage.Prelude.Int.{◌-ℤ◌}
use containers_storage.IdTools.Ranges.{ranges_fit, nth_id, total}
use containers_storage.Prelude.Int.{◌-ℤ◌}
use containers_storage.Prelude.Int.{◌+ℤ◌}
use containers_storage.IdTools.Translate.{maps_fit, hosts_apart}
use containers_storage.Prelude.{◌≡◌, refl, true, some, List, [], ◌∷◌, is_some, arith}
use containers_storage.Prelude.Int.{ℤ, pos, ltb_ℤ}
use containers_storage.IdTools.{IdMap, SubIdRange, to_host, to_container, create_id_map}
use containers_storage.IdTools.Translate.{to_container-to_host}
use containers_storage.IdTools.Ranges.{to_host-create_id_map}
use containers_storage.IdSet.{Interval, IntervalSets, min_int, size_from, size_of, take_ids, zip}
use containers_storage.Prelude.Int.{add_int, sub_int}
use containers_storage.IdSet.{max_int}
use containers_storage.IdSet.Exact.{room_for, ids_fit, size_exact, length_exact}
use containers_storage.IdSet.Available.{covers, take_ids_enough}
use containers_storage.IdSet.Zip.{mapped_from, zip_size}

abbrev two_maps : List IdMap
two_maps =
    record { container_id = pos 0; host_id = pos 1000; size = pos 1 }
    ∷ record { container_id = pos 1; host_id = pos 5000; size = pos 10 }
    ∷ []

to_container-to_host_example : to_container (pos 5003) (some two_maps) ≡ some (pos 4)
unfolding maps_fit hosts_apart ◌+ℤ◌ to_host ◌-ℤ◌
to_container-to_host_example = to_container-to_host two_maps (pos 4) (pos 5003) refl refl refl

abbrev two_ranges : List SubIdRange
two_ranges =
    record { start = pos 1000; length = pos 5 } ∷ record { start = pos 9000; length = pos 7 } ∷ []

to_host-create_id_map_example :
    let host = to_host (pos 11) (some (create_id_map (λ less rs. rs) two_ranges)) in
    (host ≡ nth_id two_ranges (pos 11)) × (is_some host ≡ ltb_ℤ (pos 11) (pos (total two_ranges)))
unfolding ranges_fit total ◌+ℤ◌
to_host-create_id_map_example =
    to_host-create_id_map (λ less rs. rs) (λ less rs. Perm.refl rs) two_ranges (pos 11) refl
      (omega arith) (omega arith)

-- Sets that keep the intervals as they are given.
abbrev as_given : IntervalSets
as_given = record {
  Set = List Interval;
  new_set = λ is. is;
  collect = λ is. is;
  sub = λ s t. s;
  union = λ s t. s;
  intervals = λ s. s;
}

abbrev gaps : List Interval
gaps =
    record { start = pos 0; end = pos 2 }
    ∷ record { start = pos 7; end = pos 7 }
    ∷ record { start = pos 9; end = pos 20 }
    ∷ []

take_ids_enough_example :
    (size_from (pos 0) (take_ids (pos 6) gaps).0 ≡ pos 6)
    × ((id : ℤ) → covers (take_ids (pos 6) gaps).0 id ≡ true → covers gaps id ≡ true)
unfolding take_ids room_for ◌-ℤ◌ ◌+ℤ◌ sub_int add_int
take_ids_enough_example = take_ids_enough (pos 6) gaps refl refl refl

abbrev whole : List Interval
whole = record { start = pos 0; end = pos 100 } ∷ []

zip_size_example :
    (ms : List IdMap) × (zip as_given (some gaps) (some whole) ≡ some ms)
    × (mapped_from (pos 0) ms
        ≡ min_int (size_of as_given (some gaps)) (size_of as_given (some whole)))
unfolding ids_fit size_exact length_exact max_int ◌-ℤ◌ ◌+ℤ◌
zip_size_example = zip_size as_given (some gaps) (some whole) refl refl refl refl
