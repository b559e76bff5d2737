-- ===== src/Pagetable/Unmap.antt =====
-- `unmappages`, alone and behind `mappages`.
use yu_noob_kernel.Base.{
  ℕ, zero, suc, ◌+◌, ◌-◌, ◌*◌, ◌/◌, ◌%◌, ◌^◌, ◌<◌, ◌≤◌, ◌≡◌, ◌≢◌, ◌⊎◌, inl, inr, refl, sym, ap, ◌∙◌,
  arith, Bool, Bool-cases, ltb, ◌==◌, if◌then◌else◌, List, Option, none, some,
}
use yu_noob_kernel.Errno.{Errno, Result, ok, err}
use yu_noob_kernel.Vma.{vm_end, page_size}
use yu_noob_kernel.Pagetable.{
  Flags, Pte, Pagetable2, no_pte, find_pte, set_pte, unmap_loop, unmappages, mappages,
}
use yu_noob_kernel.Pagetable.Walk.{page_of, valid}
use yu_noob_kernel.Pagetable.Map.{mapping, Mapped, stored_self, stored_other, find_pte-page}
use yu_noob_kernel.Pagetable.Loop.{mappages-Mapped}

-- Pages of a range are not mapped, and the others are as they were.
pub record Cleared (root : Pagetable2) (a n : ℕ) (root' : Pagetable2) : Type 0 where
  pub gone :
      (va : ℕ)
      → va < vm_end
      → page_of a ≤ page_of va
      → page_of va < page_of a + n
      → mapping root' va ≡ none
  pub others :
      (va : ℕ)
      → va < vm_end
      → (page_of va < page_of a) ⊎ (page_of a + n ≤ page_of va)
      → mapping root' va ≡ mapping root va

-- One round of the loop.
abbrev clear_page : Pagetable2 → ℕ → Pagetable2
clear_page root a = elim (find_pte root a) [
  | none ↦ root
  | some pte ↦ if pte.flags.v then set_pte root a no_pte else root
]

page_gone :
    (root : Pagetable2) (a va : ℕ)
    → page_of a ≡ page_of va
    → (o : Option Pte) → find_pte root a ≡ o
    → mapping (clear_page root a) va ≡ none
page_gone root a va e none f = rw (f, clear_page) (ap valid (sym (find_pte-page root a va e) ∙ f))
page_gone root a va e (some p) f = elim (Bool-cases p.flags.v) [
  | inl t ↦ rw (f, clear_page, t) (ap valid (stored_self root a p no_pte f va e))
  | inr t ↦ rw (f, clear_page, t) (ap valid (sym (find_pte-page root a va e) ∙ f) ∙ rw t refl)
]

page_kept :
    (root : Pagetable2) (a va : ℕ)
    → a < vm_end
    → va < vm_end
    → page_of a ≢ page_of va
    → (o : Option Pte) → find_pte root a ≡ o
    → mapping (clear_page root a) va ≡ mapping root va
page_kept root a va l l' d none f = rw (f, clear_page) refl
page_kept root a va l l' d (some p) f = elim (Bool-cases p.flags.v) [
  | inl t ↦ rw (f, clear_page, t) (ap valid (stored_other root a p no_pte f va l l' d))
  | inr t ↦ rw (f, clear_page, t) refl
]

one_page :
    (root root' : Pagetable2) (a n : ℕ)
    → a + suc n * page_size ≤ vm_end
    → Cleared (clear_page root a) (a + page_size) n root'
    → Cleared root a (suc n) root'
one_page root root' a n fits c = record {
  gone = λ va l p q. elim (Bool-cases (page_of a == page_of va)) [
    | inl e ↦
        let same : page_of a ≡ page_of va = ground arith in
        c.others va l (inl (omega (arith, same))) ∙ page_gone root a va same (find_pte root a) refl
    | inr e ↦ c.gone va l (ground (arith, next, p, e)) (omega (arith, q, next))
  ];
  others = λ va l o.
      c.others va l (beyond va o)
      ∙ page_kept root a va (omega (arith, fits)) l (apart va o) (find_pte root a) refl;
}
  where
    next : page_of (a + page_size) ≡ page_of a + 1
    next = omega arith

    beyond :
        (va : ℕ)
        → (page_of va < page_of a) ⊎ (page_of a + suc n ≤ page_of va)
        → (page_of va < page_of (a + page_size)) ⊎ (page_of (a + page_size) + n ≤ page_of va)
    beyond va (inl h) = inl (omega (arith, h, next))
    beyond va (inr h) = inr (omega (arith, h, next))

    apart :
        (va : ℕ)
        → (page_of va < page_of a) ⊎ (page_of a + suc n ≤ page_of va)
        → page_of a ≢ page_of va
    apart va (inl h) q = absurd (omega (arith, h, q))
    apart va (inr h) q = absurd (omega (arith, h, q))

loop-Cleared :
    (n : ℕ) (root : Pagetable2) (a : ℕ)
    → a + n * page_size ≤ vm_end
    → Cleared root a n (unmap_loop n root a)
unfolding unmap_loop
loop-Cleared zero root a fits = record {
  gone = λ va l p q. absurd (omega (arith, p, q));
  others = λ va l o. refl;
}
loop-Cleared (suc n) root a fits =
    one_page root _ a n fits
      (loop-Cleared n (clear_page root a) (a + page_size) (omega (arith, fits)))

-- `unmappages` of pages within the address space leaves none of them mapped, and changes no other.
pub unmappages-Cleared :
    (root : Pagetable2) (va npages : ℕ)
    → va % page_size ≡ 0
    → va + npages * page_size ≤ vm_end
    → Cleared root va npages (unmappages root va npages)
unfolding unmappages
unmappages-Cleared root va npages al fits =
    let start : va - va % page_size ≡ va = omega (arith, al) in
    let end : (va + npages * page_size) % 2 ^ 64 ≡ va + npages * page_size = omega (arith, fits) in
    let rounds : (va + npages * page_size - va) / page_size ≡ npages = omega arith in
    rw (start, end, rounds) (loop-Cleared npages root va fits)

pub not_both :
    (e : Errno) (r : Pagetable2 × Result (Unit {0})) (root root' : Pagetable2)
    → r ≡ (root', ok tt)
    → r ≡ (root, err e)
    → ⊥
not_both e r root root' h g =
    let good : r.1 ≡ ok tt = ap (λ x. x.1) h in
    let bad : r.1 ≡ err e = ap (λ x. x.1) g in absurd (cc (sym good ∙ bad))

restored :
    (root root' : Pagetable2) (va pa npages : ℕ) (perm : Flags) (mem : List Bool)
    → va % page_size ≡ 0
    → va + npages * page_size ≤ vm_end
    → Mapped root va pa npages perm mem (root', ok tt)
    → (va' : ℕ) → va' < vm_end
    → mapping (unmappages root' va npages) va' ≡ mapping root va'
restored root root' va pa npages perm mem al fits m va' l =
    let c = unmappages-Cleared root' va npages al fits in
    let all : m.count ≡ npages = m.answer in
    elim (Bool-cases (ltb (page_of va') (page_of va))) [
      | inl e ↦ c.others va' l (inl (ground (arith, e))) ∙ m.outside va' l (inl (ground (arith, e)))
      | inr e ↦ elim (Bool-cases (ltb (page_of va') (page_of va + npages))) [
        | inl f ↦
            let (before, now) = m.inside va' l (ground (arith, e)) (ground (arith, f, all)) in
            c.gone va' l (ground (arith, e)) (ground (arith, f)) ∙ sym before
        | inr f ↦
            c.others va' l (inr (ground (arith, f)))
            ∙ m.outside va' l (inr (ground (arith, f, all)))
      ]
    ]

-- An aligned range inside the address space, over physical addresses that do not wrap around at 2^64,
-- that `mappages` has mapped and `unmappages` unmaps leaves every page of the address space mapped as
-- it was before, or not at all if it was not.
pub map-unmap :
    (pm_end : ℕ) (root root' : Pagetable2) (va pa npages : ℕ) (perm : Flags) (mem : List Bool)
    → va % page_size ≡ 0
    → va + npages * page_size ≤ vm_end
    → pa + npages * page_size < 2 ^ 64
    → mappages pm_end root va pa npages perm mem ≡ (root', ok tt)
    → (va' : ℕ) → va' < vm_end
    → mapping (unmappages root' va npages) va' ≡ mapping root va'
map-unmap pm_end root root' va pa npages perm mem al fits g h va' l =
    elim (mappages-Mapped pm_end root va pa npages perm mem (omega (arith, fits)) g) [
      | inl r ↦ absurd (not_both r.0 (mappages pm_end root va pa npages perm mem) root root' h r.1)
      | inr (_, m) ↦ restored root root' va pa npages perm mem al fits (rw h at m) va' l
    ]
