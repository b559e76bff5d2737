-- ===== src/Pagetable/Translate.antt =====
-- `walkaddr` behind `mappages`.
use yu_noob_kernel.Base.{
  ℕ, ◌+◌, ◌-◌, ◌*◌, ◌^◌, ◌<◌, ◌≤◌, ◌≡◌, inl, inr, refl, sym, ◌∙◌, arith, Bool, true, false,
  Bool-cases, leb, if◌then◌else◌, ◌&&◌, ◌||◌, List, Option, none, some,
}
use yu_noob_kernel.Errno.{ok}
use yu_noob_kernel.Vma.{vm_end, page_size}
use yu_noob_kernel.Pagetable.{Flags, Pte, Pagetable2, find_pte, pte_for, walkaddr, mappages}
use yu_noob_kernel.Pagetable.Walk.{page_of, valid}
use yu_noob_kernel.Pagetable.Map.{mapping, Mapped}
use yu_noob_kernel.Pagetable.Loop.{mappages-Mapped}
use yu_noob_kernel.Pagetable.Unmap.{not_both}

kept_if : (b : Bool) (o : Option Pte) → b ≡ true → (if b then o else none) ≡ o
kept_if b o h = rw h refl

valid-some : (o : Option Pte) (p : Pte) → valid o ≡ some p → o ≡ some p
valid-some none p h = absurd (cc h)
valid-some (some q) p h = elim (Bool-cases q.flags.v) [
  | inl e ↦ sym (kept_if q.flags.v (some q) e) ∙ h
  | inr e ↦ absurd (cc (rw e at h))
]

walkaddr-mapping :
    (root : Pagetable2) (va pa : ℕ) (perm : Flags)
    → va < vm_end
    → (perm.u && (perm.r || perm.w || perm.x)) ≡ true
    → mapping root va ≡ some (pte_for pa perm)
    → walkaddr root va ≡ pa
unfolding walkaddr
walkaddr-mapping root va pa perm l u h =
    let found = valid-some (find_pte root va) (pte_for pa perm) h in
    let inside : leb vm_end va ≡ false = ground (arith, l) in rw (inside, found, u, walkaddr) refl

translated :
    (root root' : Pagetable2) (va pa npages : ℕ) (perm : Flags) (mem : List Bool)
    → Mapped root va pa npages perm mem (root', ok tt)
    → (perm.u && (perm.r || perm.w || perm.x)) ≡ true
    → (va' : ℕ) → va' < vm_end
    → page_of va ≤ page_of va'
    → page_of va' < page_of va + npages
    → walkaddr root' va' ≡ pa + (page_of va' - page_of va) * page_size
translated root root' va pa npages perm mem m u va' l p q =
    let all : m.count ≡ npages = m.answer in
    walkaddr-mapping root' va' (pa + (page_of va' - page_of va) * page_size) perm l u
      (m.inside va' l p (omega (arith, q, all))).1

-- Behind a `mappages` that has succeeded, with a permission for the user to read, write or execute,
-- `walkaddr` takes every address of the range to its page of the physical range.
pub mappages-walkaddr :
    (pm_end : ℕ) (root root' : Pagetable2) (va pa npages : ℕ) (perm : Flags) (mem : List Bool)
    → va + npages * page_size < 2 ^ 64
    → pa + npages * page_size < 2 ^ 64
    → (perm.u && (perm.r || perm.w || perm.x)) ≡ true
    → mappages pm_end root va pa npages perm mem ≡ (root', ok tt)
    → (va' : ℕ) → va' < vm_end
    → page_of va ≤ page_of va'
    → page_of va' < page_of va + npages
    → walkaddr root' va' ≡ pa + (page_of va' - page_of va) * page_size
mappages-walkaddr pm_end root root' va pa npages perm mem h g u k va' l p q =
    elim (mappages-Mapped pm_end root va pa npages perm mem h g) [
      | inl r ↦ absurd (not_both r.0 (mappages pm_end root va pa npages perm mem) root root' k r.1)
      | inr (_, m) ↦ translated root root' va pa npages perm mem (rw k at m) u va' l p q
    ]
