-- ===== src/Pagetable/Make.antt =====
-- `va2pte` with `alloc`: the tables that it makes have no valid entry.
use yu_noob_kernel.Base.{
  ℕ, zero, suc, ◌+◌, ◌<◌, ◌≤◌, ◌≡◌, inl, inr, refl, sym, ap, ◌∙◌, arith, Bool, true, false,
  Bool-cases, ◌==◌, ==_refl, if◌then◌else◌, List, [], ◌∷◌, Option, none, some,
}
use yu_noob_kernel.Pagetable.{
  Pte, no_pte, Table0, Table1, Pagetable2, px, set_at, find_pte, table_of, has_memory, behind,
  va2pte,
}
use yu_noob_kernel.Pagetable.Walk.{find_at, valid, set_upper, set_lower}

-- Whether the call of `kzalloc` with a number finds memory.
unfoldable pub granted : ℕ → List Bool → Bool
granted i [] = false
granted zero (b ∷ bs) = b
granted (suc i) (b ∷ bs) = granted i bs

granted-behind : (i : ℕ) (mem : List Bool) → granted i (behind mem) ≡ granted (i + 1) mem
unfolding granted
granted-behind i [] = refl
granted-behind i (b ∷ bs) =
    let next : i + 1 ≡ suc i = omega arith in sym (ap (λ k. granted k (b ∷ bs)) next)

granted-first : (mem : List Bool) → has_memory mem ≡ granted 0 mem
unfolding granted
granted-first [] = refl
granted-first (b ∷ bs) = refl

-- The calls that have been made: so many, of the first ones.
abbrev pub Spent : ℕ → List Bool → List Bool → Type 0
Spent n mem rest = (j : ℕ) × (j ≤ n) × ((i : ℕ) → granted i rest ≡ granted (i + j) mem)

table_of-Spent :
    {A : Type 0}
    → (o : Option A) (empty : A) (mem : List Bool) → Spent 1 mem (table_of o empty mem).1
unfolding table_of
table_of-Spent (some t) empty mem = (0, omega arith, λ i. ap (λ k. granted k mem) (omega arith))
table_of-Spent none empty mem = (1, omega arith, λ i. granted-behind i mem)

-- A table that could not be made is missing, and the first call has been refused.
table_of-none :
    {A : Type 0}
    → (o : Option A) (empty : A) (mem : List Bool) → (table_of o empty mem).0 ≡ none
    → (o ≡ none) × (granted 0 mem ≡ false)
unfolding table_of
table_of-none (some t) empty mem h = absurd (cc h)
table_of-none none empty mem h = (refl, sym (granted-first mem) ∙ made (has_memory mem) h)
  where
    made : (b : Bool) → (if b then some empty else none) ≡ none → b ≡ false
    made true e = absurd (cc e)
    made false e = refl

both-Spent : (mem mem' rest : List Bool) → Spent 1 mem mem' → Spent 1 mem' rest → Spent 2 mem rest
both-Spent mem mem' rest (j, l, f) (k, m, g) =
    (k + j, omega (arith, l, m), λ i. g i ∙ f (i + k) ∙ ap (λ x. granted x mem) (omega arith))

abbrev no_tables : Table1
no_tables i = none

-- The entries of a table of level 1, or of none.
abbrev in_table : Option Table1 → ℕ → ℕ → Option Pte
in_table none j k = none
in_table (some mid) j k = elim (mid j) [ none ↦ none | some leaf ↦ some (leaf k) ]

find_at-in_table : (root : Pagetable2) (i j k : ℕ) → find_at root i j k ≡ in_table (root i) j k
unfolding find_at
find_at-in_table root i j k = cases (root i) refl
  where
    cases : (o : Option Table1) → root i ≡ o → find_at root i j k ≡ in_table (root i) j k
    cases none e = rw (e, find_at) refl
    cases (some mid) e = rw (e, find_at) refl

-- A table that is there stays, a new one has no valid entry.
upper_valid :
    (o : Option Table1) (mem : List Bool) (mid : Table1)
    → (table_of o (λ i. none) mem).0 ≡ some mid
    → (j k : ℕ) → valid (in_table (some mid) j k) ≡ valid (in_table o j k)
unfolding table_of
upper_valid (some t) mem mid h j k = ap (λ o. valid (in_table o j k)) (sym h)
upper_valid none mem mid h j k = made (has_memory mem) h
  where
    made :
        (b : Bool)
        → (if b then some no_tables else none) ≡ some mid
        → valid (in_table (some mid) j k) ≡ none
    made true e = ap (λ o. valid (in_table o j k)) (sym e)
    made false e = absurd (cc e)

lower_valid :
    (o : Option Table0) (mem : List Bool) (leaf : Table0)
    → (table_of o (λ i. no_pte) mem).0 ≡ some leaf
    → (k : ℕ) → valid (some (leaf k)) ≡ valid (elim o [ none ↦ none | some l ↦ some (l k) ])
unfolding table_of
lower_valid (some t) mem leaf h k =
    ap (λ o. valid (elim o as (λ _. Option Pte) [ none ↦ none | some l ↦ some (l k) ])) (sym h)
lower_valid none mem leaf h k = made (has_memory mem) h
  where
    made :
        (b : Bool)
        → (if b then some (λ (i : ℕ). no_pte) else none) ≡ some leaf
        → valid (some (leaf k)) ≡ none
    made true e =
        ap (λ o. valid (elim o as (λ _. Option Pte) [ none ↦ none | some l ↦ some (l k) ])) (sym e)
    made false e = absurd (cc e)

-- The page table with one table of level 1 that was there or has been made.
with_upper :
    (root : Pagetable2) (a : ℕ) (mem : List Bool) (mid : Table1)
    → (table_of (root a) (λ i. none) mem).0 ≡ some mid
    → (i j k : ℕ) → valid (find_at (set_at root a (some mid)) i j k) ≡ valid (find_at root i j k)
with_upper root a mem mid h i j k =
    ap valid (set_upper root a mid i j k) ∙ elim (Bool-cases (a == i)) [
      | inr n ↦ rw n refl
      | inl y ↦
          let same : a ≡ i = ground arith in
          rw (y, ← same)
            (upper_valid (root a) mem mid h j k ∙ ap valid (sym (find_at-in_table root a j k)))
    ]

with_lower :
    (mid : Table1) (b : ℕ) (mem : List Bool) (leaf : Table0)
    → (table_of (mid b) (λ i. no_pte) mem).0 ≡ some leaf
    → (j k : ℕ)
    → valid (in_table (some (set_at mid b (some leaf))) j k) ≡ valid (in_table (some mid) j k)
with_lower mid b mem leaf h j k = ap valid (set_lower mid b leaf j k) ∙ elim (Bool-cases (b == j)) [
  | inr n ↦ rw n refl
  | inl y ↦ let same : b ≡ j = ground arith in rw (y, ← same) (lower_valid (mid b) mem leaf h k)
]

with_both :
    (root : Pagetable2) (a b : ℕ) (mem mem' : List Bool) (mid : Table1) (leaf : Table0)
    → (table_of (root a) (λ i. none) mem).0 ≡ some mid
    → (table_of (mid b) (λ i. no_pte) mem').0 ≡ some leaf
    → (i j k : ℕ)
    → valid (find_at (set_at root a (some (set_at mid b (some leaf)))) i j k)
      ≡ valid (find_at root i j k)
with_both root a b mem mem' mid leaf h g i j k =
    ap valid (set_upper root a (set_at mid b (some leaf)) i j k) ∙ elim (Bool-cases (a == i)) [
      | inr n ↦ rw n refl
      | inl y ↦
          let same : a ≡ i = ground arith in
          rw (y, ← same)
            (with_lower mid b mem' leaf g j k
              ∙ upper_valid (root a) mem mid h j k
              ∙ ap valid (sym (find_at-in_table root a j k)))
    ]

found_in :
    (root : Pagetable2) (va : ℕ) (mid : Table1) (leaf : Table0)
    → find_pte (set_at root (px 2 va) (some (set_at mid (px 1 va) (some leaf)))) va
      ≡ some (leaf (px 0 va))
unfolding find_pte
found_in root va mid leaf = rw (==_refl (px 2 va), ==_refl (px 1 va), find_pte) refl

no_leaf :
    (root : Pagetable2) (va : ℕ) (mid : Table1)
    → mid (px 1 va) ≡ none
    → find_pte (set_at root (px 2 va) (some mid)) va ≡ none
unfolding find_pte
no_leaf root va mid h = rw (==_refl (px 2 va), h, find_pte) refl

-- What `va2pte` with `alloc` leaves: the valid entries are the same, it has called `kzalloc` twice at
-- most, and if it has not failed the entry of the address is there; if it has, the entry is not there,
-- and a call has been refused.
pub record Walked (root : Pagetable2) (va : ℕ) (mem : List Bool)
    (r : Pagetable2 × (Bool × List Bool)) : Type 0 where
  pub same_valid : (i j k : ℕ) → valid (find_at r.0 i j k) ≡ valid (find_at root i j k)
  pub found : r.1.0 ≡ true → (p : Pte) × (find_pte r.0 va ≡ some p)
  pub spent : Spent 2 mem r.1.1
  pub refused :
      r.1.0 ≡ false → (find_pte r.0 va ≡ none) × ((i : ℕ) × (i < 2) × (granted i mem ≡ false))

pub va2pte-Walked :
    (root : Pagetable2) (va : ℕ) (mem : List Bool) → Walked root va mem (va2pte root va mem)
unfolding va2pte
va2pte-Walked root va mem = by_upper (table_of (root (px 2 va)) (λ i. none) mem).0 refl
  where
    mem' : List Bool
    mem' = (table_of (root (px 2 va)) no_tables mem).1

    plus_zero : (j : ℕ) → j ≡ 0 + j
    plus_zero j = omega arith

    all_spent : (mid : Table1) → Spent 2 mem (table_of (mid (px 1 va)) (λ i. no_pte) mem').1
    all_spent mid =
        both-Spent mem mem' _ (table_of-Spent (root (px 2 va)) no_tables mem)
          (table_of-Spent (mid (px 1 va)) (λ i. no_pte) mem')

    wider : (rest : List Bool) → Spent 1 mem rest → Spent 2 mem rest
    wider rest (j, l, f) = (j, omega (arith, l), f)

    by_lower :
        (mid : Table1)
        → (table_of (root (px 2 va)) (λ i. none) mem).0 ≡ some mid
        → (o : Option Table0) → (table_of (mid (px 1 va)) (λ i. no_pte) mem').0 ≡ o
        → Walked root va mem (va2pte root va mem)
    by_lower mid e none f =
        rw (e, va2pte, f)
          (record {
            same_valid = with_upper root (px 2 va) mem mid e;
            found = λ h. absurd (cc h);
            spent = all_spent mid;
            refused = λ h.
                let (missing, denied) = table_of-none (mid (px 1 va)) (λ i. no_pte) mem' f in
                let (j, l, s) = table_of-Spent (root (px 2 va)) no_tables mem in
                (
                  no_leaf root va mid missing,
                  (j, omega (arith, l), ap (λ k. granted k mem) (plus_zero j) ∙ sym (s 0) ∙ denied),
                );
          })
    by_lower mid e (some leaf) f =
        rw (e, va2pte, f)
          (record {
            same_valid = with_both root (px 2 va) (px 1 va) mem mem' mid leaf e f;
            found = λ h. (leaf (px 0 va), found_in root va mid leaf);
            spent = all_spent mid;
            refused = λ h. absurd (cc h);
          })

    by_upper :
        (o : Option Table1)
        → (table_of (root (px 2 va)) (λ i. none) mem).0 ≡ o
        → Walked root va mem (va2pte root va mem)
    by_upper none e =
        let (missing, denied) = table_of-none (root (px 2 va)) no_tables mem e in
        rw (e, va2pte)
          (record {
            same_valid = λ i j k. refl;
            found = λ h. absurd (cc h);
            spent = wider _ (table_of-Spent (root (px 2 va)) no_tables mem);
            refused =
                λ h. (unfold find_pte in rw (missing, find_pte) refl, (0, omega arith, denied));
          })
    by_upper (some mid) e = by_lower mid e (table_of (mid (px 1 va)) (λ i. no_pte) mem').0 refl
