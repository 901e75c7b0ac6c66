-- ===== src/RefCounter.antt =====
-- drivers/counter.go: how many users a mount point has. The checker, which says whether a path is
-- mounted, is a parameter that may change its answer between calls.
pub mod Balance
use containers_storage.Prelude.{Bool, true, false, not, Option, none, some, Str, if◌then◌else◌}
use containers_storage.Prelude.GoMap
use containers_storage.Prelude.GoMap.{GoMap}
use containers_storage.Prelude.Int.{ℤ, pos, ◌+ℤ◌, ◌-ℤ◌}

pub record Minfo : Type 0 where
  pub check : Bool
  pub count : ℤ

abbrev pub or_new : Option Minfo → Minfo
or_new none = record { check = false; count = pos 0 }
or_new (some m) = m

-- What the check does to the count: the first one counts a mount that is there, a later one forgets a
-- mount that is gone.
unfoldable pub checked : Bool → Minfo → Minfo
checked mounted m =
    if not m.check
    then record { check = true; count = if mounted then m.count +ℤ pos 1 else m.count }
    else record m { count = if mounted then m.count else pos 0 }

unfoldable pub incdec : (ℤ → ℤ) → Bool → Str → GoMap Minfo → ℤ × GoMap Minfo
unfolding checked
incdec op mounted path counts =
    let m = checked mounted (or_new (GoMap.get counts path)) in
    (op m.count, GoMap.put counts path (record m { count = op m.count }))

unfoldable pub increment : Bool → Str → GoMap Minfo → ℤ × GoMap Minfo
unfolding incdec
increment = incdec (λ n. n +ℤ pos 1)

unfoldable pub decrement : Bool → Str → GoMap Minfo → ℤ × GoMap Minfo
unfolding incdec
decrement = incdec (λ n. n -ℤ pos 1)
