-- ===== src/Pagetable/Walk.antt =====
-- The entries of a page table by the page of an address.
use yu_noob_kernel.Base.{
  ℕ, ◌/◌, ◌%◌, ◌^◌, ◌<◌, ◌≡◌, inl, inr, refl, sym, ap, ◌∙◌, arith, Bool-cases, ◌==◌, if◌then◌else◌,
  ◌&&◌, Option, none, some,
}
use yu_noob_kernel.Vma.{vm_end}
use yu_noob_kernel.Pagetable.{Pte, Table0, Table1, Pagetable2, px, set_at, find_pte, set_pte}

-- The page of an address.
abbrev pub page_of : ℕ → ℕ
page_of va = va / 2 ^ 12

px-page :
    (va : ℕ)
    → (px 0 va ≡ page_of va % 512)
      × (px 1 va ≡ page_of va / 512 % 512)
      × (px 2 va ≡ page_of va / 512 / 512 % 512)
px-page va = (refl, omega arith, omega arith)

-- The three indices of two addresses of the address space are equal only on one page.
pub same_page :
    (va va' : ℕ)
    → va < vm_end
    → va' < vm_end
    → px 2 va ≡ px 2 va'
    → px 1 va ≡ px 1 va'
    → px 0 va ≡ px 0 va'
    → page_of va ≡ page_of va'
same_page va va' h h' two one low = omega (arith, h, h', two, one, low)

pub page_px :
    (va va' : ℕ)
    → page_of va ≡ page_of va'
    → (px 2 va ≡ px 2 va') × (px 1 va ≡ px 1 va') × (px 0 va ≡ px 0 va')
page_px va va' e = (omega (arith, e), omega (arith, e), e2)
  where
    e2 : px 0 va ≡ px 0 va'
    e2 = omega (arith, e)

-- The entry at three indices.
unfoldable pub find_at : Pagetable2 → ℕ → ℕ → ℕ → Option Pte
find_at root i j k = elim (root i) [
  | none ↦ none
  | some mid ↦ elim (mid j) [ none ↦ none | some leaf ↦ some (leaf k) ]
]

pub find_pte-find_at :
    (root : Pagetable2) (va : ℕ) → find_pte root va ≡ find_at root (px 2 va) (px 1 va) (px 0 va)
unfolding find_pte find_at
find_pte-find_at root va = refl

-- The entry, if it is valid.
abbrev pub valid : Option Pte → Option Pte
valid none = none
valid (some p) = if p.flags.v then some p else none

pub at_upper :
    (root : Pagetable2) (i j k : ℕ) (mid : Table1)
    → root i ≡ some mid
    → find_at root i j k ≡ elim (mid j) [ none ↦ none | some leaf ↦ some (leaf k) ]
unfolding find_at
at_upper root i j k mid e = rw (e, find_at) refl

pub at_lower :
    (root : Pagetable2) (i j k : ℕ) (mid : Table1) (leaf : Table0)
    → root i ≡ some mid
    → mid j ≡ some leaf
    → find_at root i j k ≡ some (leaf k)
unfolding find_at
at_lower root i j k mid leaf e f = rw (e, f, find_at) refl

-- Another entry of the table of level 2 decides about its own addresses only.
pub set_upper :
    (root : Pagetable2) (i : ℕ) (mid : Table1) (i' j' k' : ℕ)
    → find_at (set_at root i (some mid)) i' j' k' ≡ (
        if i == i'
        then elim (mid j') [ none ↦ none | some leaf ↦ some (leaf k') ]
        else find_at root i' j' k')
unfolding find_at
set_upper root i mid i' j' k' = elim (Bool-cases (i == i')) [
  | inl e ↦ rw (e, find_at) refl
  | inr e ↦ rw (e, find_at) refl
]

pub set_lower :
    (mid : Table1) (j : ℕ) (leaf : Table0) (j' k' : ℕ)
    → elim (set_at mid j (some leaf) j') as (λ _. Option Pte) [ none ↦ none | some l ↦ some (l k') ]
      ≡ (if j == j' then some (leaf k') else elim (mid j') [ none ↦ none | some l ↦ some (l k') ])
set_lower mid j leaf j' k' = elim (Bool-cases (j == j')) [ inl e ↦ rw e refl | inr e ↦ rw e refl ]

-- A changed table of level 0 decides about its own entry only.
set_both :
    (root : Pagetable2) (mid : Table1) (leaf leaf' : Table0) (a b i j k : ℕ)
    → root a ≡ some mid
    → find_at (set_at root a (some (set_at mid b (some leaf')))) i j k
      ≡ (if a == i && b == j then some (leaf' k) else find_at root i j k)
set_both root mid leaf leaf' a b i j k e =
    set_upper root a (set_at mid b (some leaf')) i j k ∙ elim (Bool-cases (a == i)) [
      | inr n ↦ rw n refl
      | inl y ↦
          let same : a ≡ i = ground arith in
          let upper = at_upper root a j k mid e in
          rw (y, ← same)
            (set_lower mid b leaf' j k ∙ ap (λ o. if b == j then some (leaf' k) else o) (sym upper))
    ]

at_entry :
    (root : Pagetable2) (mid : Table1) (leaf : Table0) (a b c i j k : ℕ) (q : Pte)
    → root a ≡ some mid
    → mid b ≡ some leaf
    → (if a == i && b == j then some (set_at leaf c q k) else find_at root i j k)
      ≡ (if a == i && (b == j && c == k) then some q else find_at root i j k)
at_entry root mid leaf a b c i j k q e f = elim (Bool-cases (a == i && b == j)) [
  | inr n ↦ rw n (ground (arith, n))
  | inl y ↦ elim (Bool-cases (c == k)) [
    | inl z ↦ ground (arith, y, z)
    | inr z ↦
        let same_a : a ≡ i = ground (arith, y) in
        let same_b : b ≡ j = ground (arith, y) in
        let own = at_lower root a b k mid leaf e f in
        rw (← same_a, ← same_b, own, z) (ground (arith, z))
  ]
]

-- A store through `va2pte` changes the entry of the address, and no other.
pub set_pte-find_at :
    (root : Pagetable2) (va : ℕ) (p q : Pte)
    → find_pte root va ≡ some p
    → (i j k : ℕ)
    → find_at (set_pte root va q) i j k
      ≡ (if px 2 va == i && (px 1 va == j && px 0 va == k) then some q else find_at root i j k)
unfolding set_pte find_pte
set_pte-find_at root va p q h i j k = by_upper (root (px 2 va)) refl
  where
    by_lower :
        (mid : Table1)
        → root (px 2 va) ≡ some mid
        → (o : Option Table0) → mid (px 1 va) ≡ o
        → find_at (set_pte root va q) i j k
          ≡ (if px 2 va == i && (px 1 va == j && px 0 va == k) then some q else find_at root i j k)
    by_lower mid e none f = absurd (cc (rw (e, f, find_pte) at h))
    by_lower mid e (some leaf) f =
        rw (e, f, set_pte)
          (set_both root mid leaf (set_at leaf (px 0 va) q) (px 2 va) (px 1 va) i j k e
            ∙ at_entry root mid leaf (px 2 va) (px 1 va) (px 0 va) i j k q e f)

    by_upper :
        (o : Option Table1)
        → root (px 2 va) ≡ o
        → find_at (set_pte root va q) i j k
          ≡ (if px 2 va == i && (px 1 va == j && px 0 va == k) then some q else find_at root i j k)
    by_upper none e = absurd (cc (rw (e, find_pte) at h))
    by_upper (some mid) e = by_lower mid e (mid (px 1 va)) refl
