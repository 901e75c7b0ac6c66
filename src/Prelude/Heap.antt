-- ===== src/Prelude/Heap.antt =====
-- Objects behind pointers. A pointer is a number below `next`; what a fresh pointer reads before it
-- is written is the object that the heap was made with.
use Prim.Native.Nat.{ℕ, ◌+◌}
use containers_storage.Prelude.Tests.{◌==◌, if◌then◌else◌}

pub record Heap {ℓ} (A : Type ℓ) : Type ℓ where
  pub next : ℕ
  pub cell : ℕ → A

module _ {ℓ} {A : Type ℓ} where
  -- *p = v
  abbrev pub write : Heap A → ℕ → A → Heap A
  write h p v = record h { cell = λ q. if p == q then v else h.cell q }

  -- p := &v, where p is the old `next`
  abbrev pub alloc : Heap A → A → Heap A
  alloc h v = record { next = h.next + 1; cell = λ q. if h.next == q then v else h.cell q }
