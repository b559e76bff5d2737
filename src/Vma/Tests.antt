-- ===== src/Vma/Tests.antt =====
-- The theorems about src/mm/vma.c at a concrete list of areas.
use yu_noob_kernel.Base.{
  ℕ, ◌+◌, ◌/◌, ◌≤◌, ◌<◌, ◌≡◌, ◌≢◌, ◌⊎◌, refl, arith, List, [], ◌∷◌, true, false, none, some, pos,
  if◌then◌else◌,
}
use yu_noob_kernel.Errno.{ok, err, eexist, enoent}
use yu_noob_kernel.Vma.{
  Vma, vma_create, vma_find, vma_insert, vma_remove, page_size, vm_end, vma_type_end,
}
use yu_noob_kernel.Vma.Find.{IsProper, IsOrdered, contains, find_first, vma_find-eq-find_first}
use yu_noob_kernel.Vma.Insert.{any_clash, vma_insert_lem}
use yu_noob_kernel.Vma.Remove.{Removed, vma_remove_lem, insert-remove}
use yu_noob_kernel.Vma.Create.{vma_create_lem, vma_create_wraps}

abbrev area : ℕ → ℕ → Vma
area start length = record { start = start; length = length; perm = pos 6; type = pos 0 }

abbrev two_areas : List Vma
two_areas = area 0x1000 0x1000 ∷ area 0x5000 0x2000 ∷ []

two_areas-IsOrdered : IsOrdered two_areas
two_areas-IsOrdered = omega arith

between : Vma
between = area 0x2000 0x3000

between-IsProper : IsProper between
unfolding between
between-IsProper = omega arith

vma_find-eq-find_first_example : vma_find two_areas 0x5800 ≡ find_first two_areas 0x5800
vma_find-eq-find_first_example = vma_find-eq-find_first two_areas 0x5800 two_areas-IsOrdered

find_values :
    (vma_find two_areas 0x5800 ≡ some (area 0x5000 0x2000)) × (vma_find two_areas 0x2000 ≡ none)
unfolding vma_find
find_values = (refl, refl)

vma_insert_lem_example :
    ((any_clash between two_areas ≡ true)
      × (vma_insert two_areas between ≡ (two_areas, err eexist)))
    ⊎ ((any_clash between two_areas ≡ false)
        × ((vma_insert two_areas between).1 ≡ ok tt)
        × IsOrdered (vma_insert two_areas between).0
        × ((va : ℕ)
            → vma_find (vma_insert two_areas between).0 va
              ≡ (if contains between va then some between else vma_find two_areas va)))
vma_insert_lem_example = vma_insert_lem two_areas between two_areas-IsOrdered between-IsProper

gap_run :
    ((v : Vma) × (vma_find two_areas 0x5000 ≡ some v)
      × (v.start ≡ 0x5000)
      × (v.length ≡ 0x2000)
      × Removed two_areas 0x5000 0x2000 (vma_remove two_areas 0x5000 0x2000))
    ⊎ (((v : Vma) → vma_find two_areas 0x5000 ≡ some v → v.start ≡ 0x5000 → v.length ≢ 0x2000)
        × (vma_remove two_areas 0x5000 0x2000
            ≡ record { left = two_areas; result = err enoent; unmap = none }))
gap_run = vma_remove_lem two_areas 0x5000 0x2000 two_areas-IsOrdered

removed_again :
    vma_remove (area 0x1000 0x1000 ∷ area 0x2000 0x3000 ∷ area 0x5000 0x2000 ∷ []) 0x2000 0x3000
    ≡ record {
      left = two_areas;
      result = ok tt;
      unmap = some (record { at = 0x2000; npages = 0x3000 / page_size });
    }
unfolding between vma_insert
removed_again = insert-remove two_areas between two_areas-IsOrdered between-IsProper refl

create_one_area :
    IsProper (area 0x1000 0x2000)
    × (area 0x1000 0x2000 ≡ area 0x1000 0x2000)
    × (0x1000 + 0x2000 < vm_end)
    × ((n : ℕ) × (pos 0 ≡ pos n) × (n ≤ vma_type_end))
unfolding vma_create
create_one_area = vma_create_lem 0x1000 0x2000 (pos 6) (pos 0) true (omega arith) (omega arith) refl

vma_create_wraps_example :
    (v : Vma) × (vma_create 0x1000 (0xffff_ffff_ffff_f800) (pos 6) (pos 0) true ≡ some v)
    × ¬ (IsProper v)
vma_create_wraps_example =
    vma_create_wraps 0x1000 (0xffff_ffff_ffff_f800) 0 (pos 6) (omega arith) (omega arith)
      (omega arith)
