-- ===== src/Vma/Create.antt =====
-- What `vma_create` accepts.
use yu_noob_kernel.Base.{ℕ, ◌+◌, ◌^◌, ◌≤◌, ◌<◌, ◌≡◌, arith, Bool, true, some, ℤ, pos}
use yu_noob_kernel.Vma.{Vma, vma_create, vm_end, vma_type_end}
use yu_noob_kernel.Vma.Find.{IsProper}

-- A non-empty area that `vma_create` makes, of a length that does not carry its end past 2 ^ 64, is
-- proper, lies below VM_END, is of a known type, and is the area that was asked for.
pub vma_create_lem :
    (start length : ℕ) (perm type : ℤ) (mem : Bool) {v : Vma}
    → start + length < 2 ^ 64
    → 0 < length
    → vma_create start length perm type mem ≡ some v
    → IsProper v
      × (v ≡ record { start = start; length = length; perm = perm; type = type })
      × (start + length < vm_end)
      × ((n : ℕ) × (type ≡ pos n) × (n ≤ vma_type_end))
unfolding vma_create
vma_create_lem start length perm (pos n) mem w l h = ground arith
vma_create_lem start length perm type mem w l h = ground arith

-- The test of the end is made in 64 bits: a length that carries the end past 2 ^ 64 to an address
-- below VM_END is accepted, and the area is not proper: it runs past the end of the address space.
pub vma_create_wraps :
    (start length n : ℕ) (perm : ℤ)
    → 2 ^ 64 ≤ start + length
    → start + length < 2 ^ 64 + vm_end
    → n ≤ vma_type_end
    → (v : Vma) × (vma_create start length perm (pos n) true ≡ some v) × ¬ (IsProper v)
unfolding vma_create
vma_create_wraps start length n perm a b c = (
  record { start = start; length = length; perm = perm; type = pos n },
  ground arith,
  λ p. omega arith,
)
