-- ===== src/IdSet/Intervals.antt =====
-- What the methods of `interval` of idset.go do to the ids in them.
use containers_storage.Prelude.{Bool, ◌&&◌}
use containers_storage.Prelude.Int.{ℤ, ◌-ℤ◌, fits, leb_ℤ, ltb_ℤ}
use containers_storage.IdSet.{Interval}

abbrev pub inside : Interval → ℤ → Bool
inside i id = leb_ℤ i.start id && ltb_ℤ id i.end

-- An interval's length is an `int`.
abbrev pub length_fits : Interval → Bool
length_fits i = fits (i.end -ℤ i.start)
