-- ===== src/Pagetable/Tests.antt =====
-- The theorems about src/mm/pagetable.c at concrete page tables.
use yu_noob_kernel.Base.{ℕ, ◌+◌, ◌-◌, ◌*◌, ◌≡◌, ◌⊎◌, refl, arith, true, false, [], ◌∷◌}
use yu_noob_kernel.Errno.{Errno, enomem, ok, err}
use yu_noob_kernel.Vma.{page_size}
use yu_noob_kernel.Pagetable.{
  Flags, Pagetable2, pagetable_create, find_pte, set_pte, table_of, va2pte, map_loop, mappages,
  walkaddr, unmappages,
}
use yu_noob_kernel.Pagetable.Map.{mapping, Mapped}
use yu_noob_kernel.Pagetable.Loop.{mappages-Mapped, Refused, Accepted}
use yu_noob_kernel.Pagetable.Unmap.{Cleared, unmappages-Cleared, map-unmap}
use yu_noob_kernel.Pagetable.Translate.{mappages-walkaddr}

abbrev pm_end : ℕ
pm_end = 0x88000000

abbrev user_rw : Flags
user_rw = record {
  v = false;
  r = true;
  w = true;
  x = false;
  u = true;
  g = false;
  a = false;
  d = false;
}

-- Three pages from 0x1ff000 on, over the end of a table of level 0: three tables are made.
abbrev mapped : Pagetable2
mapped =
    (mappages pm_end pagetable_create 0x1ff000 0x80000000 3 user_rw (true ∷ true ∷ true ∷ [])).0

mapped_ok :
    mappages pm_end pagetable_create 0x1ff000 0x80000000 3 user_rw (true ∷ true ∷ true ∷ [])
    ≡ (mapped, ok tt)
unfolding mappages map_loop va2pte table_of find_pte set_pte
mapped_ok = refl

-- Without memory for the third table the first page stays mapped.
stops_in_the_middle :
    (mappages pm_end pagetable_create 0x1ff000 0x80000000 3 user_rw (true ∷ true ∷ [])).1
    ≡ err enomem
unfolding mappages map_loop va2pte table_of find_pte set_pte
stops_in_the_middle = refl

mappages-Mapped_example :
    ((e : Errno) × (mappages pm_end pagetable_create 0x1ff000 0x80000000 3 user_rw
          (true ∷ true ∷ [])
        ≡ (pagetable_create, err e))
      × Refused pm_end 0x1ff000 0x80000000 3 e)
    ⊎ (Accepted pm_end 0x1ff000 0x80000000 3
        × Mapped pagetable_create 0x1ff000 0x80000000 3 user_rw
            (true ∷ true ∷ [])
            (mappages pm_end pagetable_create 0x1ff000 0x80000000 3 user_rw (true ∷ true ∷ [])))
mappages-Mapped_example =
    mappages-Mapped pm_end pagetable_create 0x1ff000 0x80000000 3 user_rw (true ∷ true ∷ [])
      (omega arith) (omega arith)

page_run : walkaddr mapped 0x200010 ≡ 0x80000000 + (0x200 - 0x1ff) * page_size
page_run =
    mappages-walkaddr pm_end pagetable_create mapped 0x1ff000 0x80000000 3 user_rw
      (true ∷ true ∷ true ∷ []) (omega arith) (omega arith) refl mapped_ok 0x200010 (omega arith)
      (omega arith) (omega arith)

unmappages-Cleared_example : Cleared mapped 0x1ff000 2 (unmappages mapped 0x1ff000 2)
unmappages-Cleared_example = unmappages-Cleared mapped 0x1ff000 2 refl (omega arith)

map-unmap_example :
    mapping (unmappages mapped 0x1ff000 3) 0x200000 ≡ mapping pagetable_create 0x200000
map-unmap_example =
    map-unmap pm_end pagetable_create mapped 0x1ff000 0x80000000 3 user_rw (true ∷ true ∷ true ∷ [])
      refl (omega arith) (omega arith) mapped_ok 0x200000 (omega arith)
