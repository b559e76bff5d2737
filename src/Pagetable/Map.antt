-- ===== src/Pagetable/Map.antt =====
-- `mappages`: which pages are mapped afterwards, also when it fails in the middle.
use yu_noob_kernel.Base.{
  ℕ, suc, ◌+◌, ◌-◌, ◌*◌, ◌<◌, ◌≤◌, ◌≡◌, ◌≢◌, ◌⊎◌, inl, inr, refl, sym, ap, ◌∙◌, arith, Bool, false,
  Bool-cases, ◌==◌, ==_refl, ◌&&◌, List, Option, none, some,
}
use yu_noob_kernel.Errno.{Errno, enomem, eaddrinuse, Result, ok, err}
use yu_noob_kernel.Vma.{vm_end, page_size}
use yu_noob_kernel.Pagetable.{Flags, Pte, Pagetable2, px, find_pte, set_pte, pte_for}
use yu_noob_kernel.Pagetable.Walk.{
  page_of, same_page, page_px, find_pte-find_at, valid, set_pte-find_at,
}
use yu_noob_kernel.Pagetable.Make.{Walked, granted}

-- The valid entry of an address.
abbrev pub mapping : Pagetable2 → ℕ → Option Pte
mapping root va = valid (find_pte root va)

-- A store through `va2pte`, seen by the pages.
pub stored_self :
    (root : Pagetable2) (va : ℕ) (p q : Pte)
    → find_pte root va ≡ some p
    → (va' : ℕ) → page_of va ≡ page_of va'
    → find_pte (set_pte root va q) va' ≡ some q
stored_self root va p q h va' e =
    let (two, one, low) = page_px va va' e in
    find_pte-find_at (set_pte root va q) va'
    ∙ set_pte-find_at root va p q h (px 2 va') (px 1 va') (px 0 va')
    ∙ rw (two, one, low, ==_refl (px 2 va'), ==_refl (px 1 va'), ==_refl (px 0 va')) refl

pub stored_other :
    (root : Pagetable2) (va : ℕ) (p q : Pte)
    → find_pte root va ≡ some p
    → (va' : ℕ) → va < vm_end
    → va' < vm_end
    → page_of va ≢ page_of va'
    → find_pte (set_pte root va q) va' ≡ find_pte root va'
stored_other root va p q h va' l l' n =
    find_pte-find_at (set_pte root va q) va'
    ∙ set_pte-find_at root va p q h (px 2 va') (px 1 va') (px 0 va')
    ∙ elim (Bool-cases (px 2 va == px 2 va' && (px 1 va == px 1 va' && px 0 va == px 0 va'))) [
      | inl e ↦
          absurd
            (n (same_page va va' l l' (ground (arith, e)) (ground (arith, e)) (ground (arith, e))))
      | inr e ↦ rw e (sym (find_pte-find_at root va'))
    ]

-- Of so many calls of `kzalloc` one is refused.
abbrev pub Refusal : ℕ → List Bool → Type 0
Refusal n mem = (i : ℕ) × (i < n) × (granted i mem ≡ false)

-- What `mappages` answers for `n` pages when `k` of them have been mapped: that all are; that for the
-- next one, which still has no entry, a call of `kzalloc` was refused; or that the next one was mapped.
abbrev pub Answer : Pagetable2 → ℕ → ℕ → List Bool → ℕ → Pagetable2 → Result (Unit {0}) → Type 0
Answer root va n mem k end (ok u) = k ≡ n
Answer root va n mem k end (err e) =
    (k < n)
    × (((e ≡ enomem) × (find_pte end (va + k * page_size) ≡ none) × Refusal (2 * n) mem)
        ⊎ ((e ≡ eaddrinuse) × (mapping root (va + k * page_size) ≢ none)))

-- What the loop leaves: some pages from the first one on are mapped to the pages from `pa` on, and
-- were not mapped before; no other page has changed.
pub record Mapped (root : Pagetable2) (va pa n : ℕ) (perm : Flags) (mem : List Bool)
    (r : Pagetable2 × Result (Unit {0})) : Type 0 where
  pub count : ℕ
  pub inside :
      (va' : ℕ)
      → va' < vm_end
      → page_of va ≤ page_of va'
      → page_of va' < page_of va + count
      → (mapping root va' ≡ none)
        × (mapping r.0 va' ≡ some (pte_for (pa + (page_of va' - page_of va) * page_size) perm))
  pub outside :
      (va' : ℕ)
      → va' < vm_end
      → (page_of va' < page_of va) ⊎ (page_of va + count ≤ page_of va')
      → mapping r.0 va' ≡ mapping root va'
  pub answer : Answer root va n mem count r.0 r.1

-- The tables of an address have been made, which maps nothing.
pub valid_entries :
    (root : Pagetable2) (va : ℕ) (mem : List Bool) (r : Pagetable2 × (Bool × List Bool))
    → Walked root va mem r
    → (va' : ℕ) → mapping r.0 va' ≡ mapping root va'
valid_entries root va mem r w va' =
    ap valid (find_pte-find_at r.0 va')
    ∙ w.same_valid (px 2 va') (px 1 va') (px 0 va')
    ∙ ap valid (sym (find_pte-find_at root va'))

pub stopped :
    (root : Pagetable2) (va pa n : ℕ) (perm : Flags) (mem : List Bool)
    (r : Pagetable2 × (Bool × List Bool)) (e : Errno)
    → Walked root va mem r
    → ((e ≡ enomem) × (find_pte r.0 (va + 0 * page_size) ≡ none) × Refusal (2 * suc n) mem)
      ⊎ ((e ≡ eaddrinuse) × (mapping root (va + 0 * page_size) ≢ none))
    → Mapped root va pa (suc n) perm mem (r.0, err e)
stopped root va pa n perm mem r e w h = record {
  count = 0;
  inside = λ va' l a b. absurd (omega (arith, a, b));
  outside = λ va' l o. valid_entries root va mem r w va';
  answer = (omega arith, h);
}

pub find_pte-page :
    (root : Pagetable2) (va va' : ℕ)
    → page_of va ≡ page_of va'
    → find_pte root va ≡ find_pte root va'
find_pte-page root va va' e =
    let (two, one, low) = page_px va va' e in
    find_pte-find_at root va ∙ rw (two, one, low) (sym (find_pte-find_at root va'))

-- The page table with one page more, behind `va2pte`.
abbrev pub with_page : Pagetable2 × (Bool × List Bool) → ℕ → ℕ → Flags → Pagetable2
with_page m va pa perm = set_pte m.0 va (pte_for pa perm)

module _ (root : Pagetable2) (va pa n : ℕ) (perm : Flags) (mem : List Bool)
    (m : Pagetable2 × (Bool × List Bool)) (p : Pte) (w : Walked root va mem m)
    (f : find_pte m.0 va ≡ some p) (z : p.flags.v ≡ false)
    (fits : va + suc n * page_size ≤ vm_end) where
  next_page : page_of (va + page_size) ≡ page_of va + 1
  next_page = omega arith

  in_space : va < vm_end
  in_space = omega (arith, fits)

  -- The page was not mapped.
  was_free : (va' : ℕ) → page_of va ≡ page_of va' → mapping root va' ≡ none
  was_free va' e =
      ap valid (sym (find_pte-page root va va' e))
      ∙ sym (valid_entries root va mem m w va)
      ∙ rw (f, z) refl

  -- Another page is as it was.
  elsewhere :
      (va' : ℕ)
      → va' < vm_end
      → page_of va ≢ page_of va'
      → mapping (with_page m va pa perm) va' ≡ mapping root va'
  elsewhere va' l d =
      ap valid (stored_other m.0 va p (pte_for pa perm) f va' in_space l d)
      ∙ valid_entries root va mem m w va'

  later-Answer :
      (k : ℕ) (end : Pagetable2) (x : Result (Unit {0}))
      → Answer (with_page m va pa perm) (va + page_size) n m.1.1 k end x
      → Answer root va (suc n) mem (suc k) end x
  later-Answer k end (ok u) h = ap suc h
  later-Answer k end (err e) (l, inl (h, missing, refusal)) =
      let (i, j, denied) = refusal in
      let (s, le, same) = w.spent in
      let place : va + page_size + k * page_size ≡ va + suc k * page_size = omega arith in
      (
        omega (arith, l),
        inl (h, rw place at missing, (i + s, omega (arith, j, le), sym (same i) ∙ denied)),
      )
  later-Answer k end (err e) (l, inr (h, u)) = (
    omega (arith, l),
    inr (h, λ free. u (shift ∙ elsewhere (va + suc k * page_size) inside_space apart ∙ free)),
  )
    where
      inside_space : va + suc k * page_size < vm_end
      inside_space = omega (arith, fits, l)

      apart : page_of va ≢ page_of (va + suc k * page_size)
      apart d = absurd (omega (arith, d))

      shift :
          mapping (with_page m va pa perm) (va + page_size + k * page_size)
          ≡ mapping (with_page m va pa perm) (va + suc k * page_size)
      shift = ap (mapping (with_page m va pa perm)) (omega arith)

  pub one_mapped :
      (r : Pagetable2 × Result (Unit {0}))
      → Mapped (with_page m va pa perm) (va + page_size) (pa + page_size) n perm m.1.1 r
      → Mapped root va pa (suc n) perm mem r
  one_mapped r k = record {
    count = suc k.count;
    inside = λ va' l a b. elim (Bool-cases (page_of va == page_of va')) [
      | inl e ↦
          let same : page_of va ≡ page_of va' = ground arith in
          let at_first : pa + (page_of va' - page_of va) * page_size ≡ pa = omega (arith, same) in
          (
            was_free va' same,
            rw at_first (
                k.outside va' l (inl (omega (arith, same, next_page)))
                ∙ ap valid (stored_self m.0 va p (pte_for pa perm) f va' same)),
          )
      | inr e ↦
          let other : page_of va ≢ page_of va' = λ q. absurd (ground (arith, e, q)) in
          let (before, now) =
            k.inside va' l (ground (arith, next_page, a, e)) (omega (arith, b, next_page)) in
          let address : pa + page_size + (page_of va' - page_of (va + page_size)) * page_size
              ≡ pa + (page_of va' - page_of va) * page_size =
            ground (arith, next_page, a, e) in
          (sym (elsewhere va' l other) ∙ before, rw (← address) now)
    ];
    outside = λ va' l o.
        k.outside va' l (beyond va' o) ∙ elsewhere va' l (λ q. absurd (at_first_page va' o q));
    answer = later-Answer k.count r.0 r.1 k.answer;
  }
    where
      beyond :
          (va' : ℕ)
          → (page_of va' < page_of va) ⊎ (page_of va + suc k.count ≤ page_of va')
          → (page_of va' < page_of (va + page_size))
            ⊎ (page_of (va + page_size) + k.count ≤ page_of va')
      beyond va' (inl h) = inl (omega (arith, h, next_page))
      beyond va' (inr h) = inr (omega (arith, h, next_page))

      at_first_page :
          (va' : ℕ)
          → (page_of va' < page_of va) ⊎ (page_of va + suc k.count ≤ page_of va')
          → page_of va ≡ page_of va'
          → ⊥
      at_first_page va' (inl h) q = omega (arith, h, q)
      at_first_page va' (inr h) q = omega (arith, h, q)
