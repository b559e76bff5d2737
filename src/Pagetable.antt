-- ===== src/Pagetable.antt =====
-- src/mm/pagetable.c: the three levels of page tables of Sv39. A table belongs to one entry of the level
-- above, so a page table is a tree: an entry of the two upper levels that is not valid is `none`. The
-- flags of an entry are Booleans, its address is page-aligned. The calls of `kzalloc` take from a list
-- of Booleans whether there is memory, and find none at its end. The root is not NULL.
pub mod Walk
pub mod Make
pub mod Map
pub mod Loop
pub mod Unmap
pub mod Translate
mod Tests
use yu_noob_kernel.Base.{
  ℕ, zero, suc, ◌+◌, ◌-◌, ◌*◌, ◌/◌, ◌%◌, ◌^◌, Bool, true, false, not, ltb, leb, ◌==◌, if◌then◌else◌,
  ◌&&◌, ◌||◌, List, [], ◌∷◌, Option, none, some,
}
use yu_noob_kernel.Errno.{Errno, einval, erange, enomem, eaddrinuse, Result, ok, err}
use yu_noob_kernel.Vma.{vm_end, page_size}

-- The flags of an entry, and of a permission.
pub record Flags : Type 0 where
  pub v : Bool
  pub r : Bool
  pub w : Bool
  pub x : Bool
  pub u : Bool
  pub g : Bool
  pub a : Bool
  pub d : Bool

pub record Pte : Type 0 where
  pub pa : ℕ
  pub flags : Flags

abbrev pub no_pte : Pte
no_pte = record {
  pa = 0;
  flags = record {
    v = false;
    r = false;
    w = false;
    x = false;
    u = false;
    g = false;
    a = false;
    d = false;
  };
}

-- The tables of the levels 0, 1 and 2.
abbrev pub Table0 : Type 0
Table0 = ℕ → Pte

abbrev pub Table1 : Type 0
Table1 = ℕ → Option Table0

abbrev pub Pagetable2 : Type 0
Pagetable2 = ℕ → Option Table1

-- `PX`.
abbrev pub px : ℕ → ℕ → ℕ
px level va = va / 2 ^ (12 + 9 * level) % 512

-- `pagetable_create`, of a page that is zero.
abbrev pub pagetable_create : Pagetable2
pagetable_create i = none

-- The entry that `va2pte` without `alloc` points to, or NULL.
unfoldable pub find_pte : Pagetable2 → ℕ → Option Pte
find_pte root va = elim (root (px 2 va)) [
  | none ↦ none
  | some mid ↦ elim (mid (px 1 va)) [ none ↦ none | some leaf ↦ some (leaf (px 0 va)) ]
]

abbrev pub set_at {ℓ} : {A : Type ℓ} → (ℕ → A) → ℕ → A → ℕ → A
set_at f i x j = if i == j then x else f j

-- A store through the pointer of `va2pte`.
unfoldable pub set_pte : Pagetable2 → ℕ → Pte → Pagetable2
set_pte root va pte = elim (root (px 2 va)) [
  | none ↦ root
  | some mid ↦ elim (mid (px 1 va)) [
    | none ↦ root
    | some leaf ↦
        set_at root (px 2 va) (some (set_at mid (px 1 va) (some (set_at leaf (px 0 va) pte))))
  ]
]

abbrev pub has_memory : List Bool → Bool
has_memory [] = false
has_memory (b ∷ bs) = b

abbrev pub behind : List Bool → List Bool
behind [] = []
behind (b ∷ bs) = bs

-- One round of `va2pte` with `alloc`: the table of an entry, made if there is none, and the calls of
-- `kzalloc` that are left.
unfoldable pub table_of {ℓ} : {A : Type ℓ} → Option A → A → List Bool → Option A × List Bool
table_of (some t) empty mem = (some t, mem)
table_of none empty mem = (if has_memory mem then some empty else none, behind mem)

-- `va2pte` with `alloc`: the page table with the tables of the address, and whether they are there.
unfoldable pub va2pte : Pagetable2 → ℕ → List Bool → Pagetable2 × (Bool × List Bool)
va2pte root va mem =
    let upper = table_of (root (px 2 va)) (λ i. none) mem in
    elim upper.0 [
      | none ↦ (root, (false, upper.1))
      | some mid ↦
          let lower = table_of (mid (px 1 va)) (λ i. no_pte) upper.1 in
          elim lower.0 [
            | none ↦ (set_at root (px 2 va) (some mid), (false, lower.1))
            | some leaf ↦
                (set_at root (px 2 va) (some (set_at mid (px 1 va) (some leaf))), (true, lower.1))
          ]
    ]

-- `walkaddr`; 0 is a failure.
unfoldable pub walkaddr : Pagetable2 → ℕ → ℕ
walkaddr root va =
    let walked : ℕ = elim (find_pte root va) [
      | none ↦ 0
      | some pte ↦ let f = pte.flags in if f.v && (f.u && (f.r || f.w || f.x)) then pte.pa else 0
    ] in
    if leb vm_end va then 0 else walked

-- The entry that `mappages` writes.
abbrev pub pte_for : ℕ → Flags → Pte
pte_for pa perm = record {
  pa = pa;
  flags = record perm { v = true; a = true; d = if perm.w then true else perm.d };
}

-- The loop of `mappages`, with so many pages left.
unfoldable pub map_loop :
    ℕ → Pagetable2 → ℕ → ℕ → Flags → List Bool → Pagetable2 × Result (Unit {0})
map_loop zero root va pa perm mem = (root, ok tt)
map_loop (suc n) root va pa perm mem =
    let m = va2pte root va mem in
    let used : Bool = elim (find_pte m.0 va) [ none ↦ false | some pte ↦ pte.flags.v ] in
    let rest =
      map_loop n (set_pte m.0 va (pte_for pa perm)) (va + page_size) (pa + page_size) perm m.1.1 in
    if not m.1.0 then (m.0, err enomem) else if used then (m.0, err eaddrinuse) else rest

-- `mappages`; the sums are of 64 bits, `pm_end` is the end of the memory.
unfoldable pub mappages :
    ℕ → Pagetable2 → ℕ → ℕ → ℕ → Flags → List Bool → Pagetable2 × Result (Unit {0})
mappages pm_end root va pa npages perm mem =
    if not (va % page_size == 0) || not (pa % page_size == 0)
    then (root, err einval)
    else if npages == 0
    then (root, ok tt)
    else if ltb vm_end ((va + npages * page_size) % 2 ^ 64)
    then (root, err erange)
    else if ltb pm_end ((pa + npages * page_size) % 2 ^ 64)
    then (root, err erange)
    else map_loop npages root va pa perm mem

-- The loop of `unmappages`, with so many pages left.
unfoldable pub unmap_loop : ℕ → Pagetable2 → ℕ → Pagetable2
unmap_loop zero root a = root
unmap_loop (suc n) root a =
    let root' : Pagetable2 = elim (find_pte root a) [
      | none ↦ root
      | some pte ↦ if pte.flags.v then set_pte root a no_pte else root
    ] in
    unmap_loop n root' (a + page_size)

-- `unmappages`; the end is a sum of 64 bits.
unfoldable pub unmappages : Pagetable2 → ℕ → ℕ → Pagetable2
unmappages root vm npages =
    let start = vm - vm % page_size in
    let end = (start + npages * page_size) % 2 ^ 64 in
    unmap_loop ((end - start) / page_size) root start
