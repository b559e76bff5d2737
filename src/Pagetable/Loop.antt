-- ===== src/Pagetable/Loop.antt =====
-- The loop of `mappages`, and `mappages`.
use yu_noob_kernel.Base.{
  ℕ, zero, suc, ◌+◌, ◌*◌, ◌%◌, ◌^◌, ◌<◌, ◌≤◌, ◌≡◌, ◌≢◌, ◌⊎◌, inl, inr, refl, sym, ap, ◌∙◌, arith,
  Bool, true, false, Bool-cases, not, ltb, ◌==◌, ◌&&◌, ◌||◌, List, none, some,
}
use yu_noob_kernel.Errno.{Errno, enomem, eaddrinuse, einval, erange, ok, err}
use yu_noob_kernel.Vma.{vm_end, page_size}
use yu_noob_kernel.Pagetable.{
  Flags, Pte, Pagetable2, find_pte, set_pte, va2pte, pte_for, map_loop, mappages,
}
use yu_noob_kernel.Pagetable.Make.{Walked, va2pte-Walked}
use yu_noob_kernel.Pagetable.Map.{mapping, Mapped, stopped, one_mapped, valid_entries, with_page}

none_mapped :
    (root : Pagetable2) (va pa : ℕ) (perm : Flags) (mem : List Bool)
    → Mapped root va pa 0 perm mem (root, ok tt)
none_mapped root va pa perm mem = record {
  count = 0;
  inside = λ va' l a b. absurd (omega (arith, a, b));
  outside = λ va' l o. refl;
  answer = refl;
}

-- A valid entry that is in the way.
in_use :
    (root : Pagetable2) (va : ℕ) (mem : List Bool) (m : Pagetable2 × (Bool × List Bool)) (p : Pte)
    → Walked root va mem m
    → find_pte m.0 va ≡ some p
    → p.flags.v ≡ true
    → mapping root (va + 0 * page_size) ≢ none
in_use root va mem m p w f t free =
    let here : mapping root va ≡ none = ap (mapping root) (omega arith) ∙ free in
    let there : mapping m.0 va ≡ some p = rw (f, t) refl in
    absurd (cc (sym there ∙ valid_entries root va mem m w va ∙ here))

round :
    (n : ℕ) (root : Pagetable2) (va pa : ℕ) (perm : Flags) (mem : List Bool)
    → va + suc n * page_size ≤ vm_end
    → Walked root va mem (va2pte root va mem)
    → Mapped
        (with_page (va2pte root va mem) va pa perm)
        (va + page_size)
        (pa + page_size)
        n
        perm
        (va2pte root va mem).1.1
        (map_loop n
          (set_pte (va2pte root va mem).0 va (pte_for pa perm))
          (va + page_size)
          (pa + page_size)
          perm
          (va2pte root va mem).1.1)
    → Mapped root va pa (suc n) perm mem (map_loop (suc n) root va pa perm mem)
unfolding map_loop
round n root va pa perm mem fits w rest = elim (Bool-cases (va2pte root va mem).1.0) [
  | inr e ↦
      let (missing, refusal) = w.refused e in
      let (i, l, denied) = refusal in
      let here : find_pte (va2pte root va mem).0 (va + 0 * page_size) ≡ none =
        ap (find_pte (va2pte root va mem).0) (omega arith) ∙ missing in
      rw (e, map_loop)
        (stopped root va pa n perm mem (va2pte root va mem) enomem w
          (inl (refl, here, (i, omega (arith, l), denied))))
  | inl e ↦ by_entry e (w.found e)
]
  where
    by_entry :
        (va2pte root va mem).1.0 ≡ true
        → (p : Pte) × (find_pte (va2pte root va mem).0 va ≡ some p)
        → Mapped root va pa (suc n) perm mem (map_loop (suc n) root va pa perm mem)
    by_entry e (p, f) = elim (Bool-cases p.flags.v) [
      | inl t ↦
          rw (e, f, t, map_loop)
            (stopped root va pa n perm mem (va2pte root va mem) eaddrinuse w
              (inr (refl, in_use root va mem (va2pte root va mem) p w f t)))
      | inr t ↦
          rw (e, f, t, map_loop)
            (one_mapped root va pa n perm mem (va2pte root va mem) p w f t fits _ rest)
    ]

loop-Mapped :
    (n : ℕ) (root : Pagetable2) (va pa : ℕ) (perm : Flags) (mem : List Bool)
    → va + n * page_size ≤ vm_end
    → Mapped root va pa n perm mem (map_loop n root va pa perm mem)
unfolding map_loop
loop-Mapped zero root va pa perm mem fits = none_mapped root va pa perm mem
loop-Mapped (suc n) root va pa perm mem fits =
    round n root va pa perm mem fits (va2pte-Walked root va mem) (
      loop-Mapped n (set_pte (va2pte root va mem).0 va (pte_for pa perm)) (va + page_size)
        (pa + page_size) perm (va2pte root va mem).1.1 (omega (arith, fits)))

-- The addresses are aligned.
abbrev pub both_aligned : ℕ → ℕ → Bool
both_aligned va pa = (va % page_size == 0) && (pa % page_size == 0)

-- The requests that `mappages` refuses at once, and with which error.
abbrev pub Refused : ℕ → ℕ → ℕ → ℕ → Errno → Type 0
Refused pm_end va pa npages e =
    ((e ≡ einval) × (both_aligned va pa ≡ false))
    ⊎ ((e ≡ erange)
        × (both_aligned va pa ≡ true)
        × (0 < npages)
        × ((vm_end < va + npages * page_size) ⊎ (pm_end < pa + npages * page_size)))

-- The other requests.
abbrev pub Accepted : ℕ → ℕ → ℕ → ℕ → Type 0
Accepted pm_end va pa npages =
    (both_aligned va pa ≡ true)
    × ((npages ≡ 0) ⊎ ((va + npages * page_size ≤ vm_end) × (pa + npages * page_size ≤ pm_end)))

-- `mappages` of pages whose addresses do not wrap around at 2^64 refuses a request and changes nothing
-- exactly if an address is not aligned, or there are pages and they go beyond the address space or the
-- memory. Otherwise it maps pages from the first one on that were not mapped before, each to its page
-- of the physical range with the permissions, and changes no other page. It maps all of them, or
-- stops with ENOMEM at the first one whose entry is still missing, and then one of the calls of
-- `kzalloc`, two at most for a page, has been refused, or with EADDRINUSE at the first one that was
-- mapped already; the pages before stay mapped.
pub mappages-Mapped :
    (pm_end : ℕ) (root : Pagetable2) (va pa npages : ℕ) (perm : Flags) (mem : List Bool)
    → va + npages * page_size < 2 ^ 64
    → pa + npages * page_size < 2 ^ 64
    → ((e : Errno) × (mappages pm_end root va pa npages perm mem ≡ (root, err e))
        × Refused pm_end va pa npages e)
      ⊎ (Accepted pm_end va pa npages
          × Mapped root va pa npages perm mem (mappages pm_end root va pa npages perm mem))
unfolding mappages
mappages-Mapped pm_end root va pa npages perm mem h g =
    elim (Bool-cases (not (va % page_size == 0) || not (pa % page_size == 0))) [
      | inl a ↦ inl (einval, rw a refl, inl (refl, ground (arith, a)))
      | inr a ↦
          let good : both_aligned va pa ≡ true = ground (arith, a) in
          elim (Bool-cases (npages == 0)) [
            | inl z ↦
                let same : npages ≡ 0 = ground arith in
                inr ((good, inl same), rw (a, same) (none_mapped root va pa perm mem))
            | inr z ↦
                let v : (va + npages * page_size) % 2 ^ 64 ≡ va + npages * page_size =
                  omega (arith, h) in
                let p : (pa + npages * page_size) % 2 ^ 64 ≡ pa + npages * page_size =
                  omega (arith, g) in
                let some_pages : 0 < npages = ground (arith, z) in
                elim (Bool-cases (ltb vm_end (va + npages * page_size))) [
                  | inl o ↦ inl (
                    erange,
                    rw (a, z, v, o) refl,
                    inr (refl, good, some_pages, inl (ground (arith, o))),
                  )
                  | inr o ↦ elim (Bool-cases (ltb pm_end (pa + npages * page_size))) [
                    | inl q ↦ inl (
                      erange,
                      rw (a, z, v, o, p, q) refl,
                      inr (refl, good, some_pages, inr (ground (arith, q))),
                    )
                    | inr q ↦ inr (
                      (good, inr (ground (arith, o), ground (arith, q))),
                      rw (a, z, v, o, p, q)
                          (loop-Mapped npages root va pa perm mem (ground (arith, o))),
                    )
                  ]
                ]
          ]
    ]
