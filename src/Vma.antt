-- ===== src/Vma.antt =====
-- src/mm/vma.c: the areas of a process, as the list `proc->vma` in its order. Addresses are 64-bit
-- words. The `list_del` that `vma_destroy` repeats on a node already unlinked, and the `kfree` of the
-- node, change nothing in the list.
pub mod Find
pub mod Insert
pub mod Remove
pub mod Create
mod Tests
use yu_noob_kernel.Base.{
  ℕ, ◌+◌, ◌/◌, ◌%◌, ◌^◌, Bool, not, ltb, leb, ◌==◌, if◌then◌else◌, ◌&&◌, ◌||◌, List, [], ◌∷◌,
  Option, none, some, ℤ, pos, is_neg, pos_part,
}
use yu_noob_kernel.Errno.{Errno, eexist, enoent, Result, ok, err}

abbrev pub vm_start : ℕ
vm_start = 0

abbrev pub vm_end : ℕ
vm_end = 2 ^ 38

abbrev pub page_size : ℕ
page_size = 4096

-- VMA_TYPE_END; VMA_TYPE_START is 0.
abbrev pub vma_type_end : ℕ
vma_type_end = 3

-- `struct vma`; `file` and `offset` are not set by this file.
pub record Vma : Type 0 where
  pub start : ℕ
  pub length : ℕ
  pub perm : ℤ
  pub type : ℤ

-- `start + length` in 64 bits.
abbrev pub end_of : Vma → ℕ
end_of v = (v.start + v.length) % 2 ^ 64

-- `vma_create`, where the flag says whether `kzalloc` found memory.
unfoldable pub vma_create : ℕ → ℕ → ℤ → ℤ → Bool → Option Vma
vma_create start length perm type mem =
    if ltb start vm_start
      || leb vm_end ((start + length) % 2 ^ 64)
      || is_neg type
      || ltb vma_type_end (pos_part type)
    then none
    else if mem
    then some (record { start = start; length = length; perm = perm; type = type })
    else none

-- `vma_find`.
unfoldable pub vma_find : List Vma → ℕ → Option Vma
vma_find [] va = none
vma_find (v ∷ vs) va =
    if ltb va v.start then none else if ltb va (end_of v) then some v else vma_find vs va

-- The test of `vma_insert` for an overlap.
abbrev pub overlaps : Vma → Vma → Bool
overlaps new v = not (leb (end_of new) v.start || leb (end_of v) new.start)

-- The loop of `vma_insert`: `none` for the return of -EEXIST.
unfoldable pub insert_before : Vma → List Vma → Option (List Vma)
insert_before new [] = some (new ∷ [])
insert_before new (v ∷ vs) =
    let rest : Option (List Vma) = elim (insert_before new vs) [
      | none ↦ none
      | some ws ↦ some (v ∷ ws)
    ] in
    if overlaps new v then none else if ltb new.start v.start then some (new ∷ v ∷ vs) else rest

unfoldable pub vma_insert : List Vma → Vma → List Vma × Result (Unit {0})
unfolding insert_before
vma_insert vs new = elim (insert_before new vs) [ none ↦ (vs, err eexist) | some ws ↦ (ws, ok tt) ]

-- `list_del` of the node that `vma_find` returns for `va`.
unfoldable pub unlink_found : List Vma → ℕ → List Vma
unlink_found [] va = []
unlink_found (v ∷ vs) va =
    if ltb va v.start then v ∷ vs else if ltb va (end_of v) then vs else v ∷ unlink_found vs va

-- The arguments of a call of `mappages`.
pub record MapRequest : Type 0 where
  pub va : ℕ
  pub pa : ℕ
  pub npages : ℕ
  pub perm : ℤ

-- `vma_map_pages`.
unfoldable pub vma_map_pages : Vma → MapRequest
vma_map_pages v = record { va = v.start; pa = 0; npages = v.length / page_size; perm = v.perm }

-- The arguments of a call of `unmappages`: the first address and the number of pages.
pub record Unmap : Type 0 where
  pub at : ℕ
  pub npages : ℕ

-- `vma_unmap_pages`.
unfoldable pub vma_unmap_pages : ℕ → ℕ → Unmap
vma_unmap_pages start length = record { at = start; npages = length / page_size }

-- `vma_remove`: the list left, the result, and the call of `unmappages` if one is made.
pub record Removal : Type 0 where
  pub left : List Vma
  pub result : Result (Unit {0})
  pub unmap : Option Unmap

unfoldable pub vma_remove : List Vma → ℕ → ℕ → Removal
unfolding vma_find unlink_found vma_unmap_pages
vma_remove vs start length = elim (vma_find vs start) [
  | none ↦ record { left = vs; result = err enoent; unmap = none }
  | some v ↦
      if not (v.start == start) || not (v.length == length)
      then record { left = vs; result = err enoent; unmap = none }
      else record {
        left = unlink_found vs start;
        result = ok tt;
        unmap = some (vma_unmap_pages start length);
      }
]
