-- ===== src/RefCounter/Balance.antt =====
-- Increment and Decrement of drivers/counter.go undo one another.
use containers_storage.Prelude.{Bool, if◌then◌else◌}
use containers_storage.Prelude.GoMap
use containers_storage.Prelude.GoMap.{GoMap}
use containers_storage.Prelude.Int.{ℤ, pos}

-- A call on an entry that was checked before.
abbrev seen : Bool → ℤ → ℤ
seen mounted n = if mounted then n else pos 0
