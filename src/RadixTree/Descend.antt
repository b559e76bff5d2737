-- ===== src/RadixTree/Descend.antt =====
-- Memory for an insertion, a new leaf, and an insertion into a child.
use yu_noob_kernel.Base.{
  ℕ, zero, suc, ◌+◌, ◌*◌, ◌≤◌, ◌≡◌, refl, arith, Bool, true, false, Bool-cases, inl, inr, ◌==◌,
  if◌then◌else◌, List, [], ◌∷◌, some,
}
use yu_noob_kernel.RadixTree.{
  Node, vacant, leaf, branch, shr, digit, child, lookup_from, kmalloc, Inserted, inserted,
  no_memory, too_deep, alloc_leaf, put_child, rxtree_insert_node,
}
use yu_noob_kernel.RadixTree.Digits.{digit_differs}
use yu_noob_kernel.RadixTree.Lookup.{
  Fits, leaf-Fits, Fits-leaf, lookup-vacant, lookup-leaf, set_child-Fits, lookup-set_child,
}

-- The first `k` calls of `kmalloc` find memory.
unfoldable pub Granted : ℕ → List Bool → Type 0
Granted zero mem = Unit
Granted (suc k) [] = ⊥
Granted (suc k) (b ∷ mem) = (b ≡ true) × Granted k mem

pub Granted-le : (k l : ℕ) (mem : List Bool) → Granted l mem → k ≤ l → Granted k mem
unfolding Granted
Granted-le zero l mem g h = tt
Granted-le (suc k) zero mem g h = absurd (omega arith)
Granted-le (suc k) (suc l) [] g h = absurd g
Granted-le (suc k) (suc l) (b ∷ mem) (e, g) h = (e, Granted-le k l mem g (omega arith))

-- A call that finds memory leaves one call less that does; one that does not was the first refused.
pub kmalloc-Granted :
    (k : ℕ) (mem : List Bool)
    → Granted (suc k) mem
    → ((kmalloc mem).0 ≡ true) × Granted k (kmalloc mem).1
unfolding kmalloc Granted
kmalloc-Granted k [] g = absurd g
kmalloc-Granted k (b ∷ mem) g = g

-- There was too little memory.
pub record Refused {ℓ} (n : ℕ) (mem : List Bool) : Type ℓ where
  pub short : ¬ Granted (2 * n + 1) mem

pub record Never {ℓ} : Type ℓ where
  pub never : ⊥

pub refused {ℓ} : (n : ℕ) (mem : List Bool) → (kmalloc mem).0 ≡ false → Refused {ℓ} n mem
refused n mem e = record {
  short = λ g.
      let h = kmalloc-Granted 0 mem (Granted-le 1 (2 * n + 1) mem g (omega arith)) in
      absurd (ground (arith, h.0, e));
}

module _ {ℓ} {V : Type ℓ} where
  -- The outcome of an insertion into a subtree `t` with `n` digits left: the key has the value now,
  -- every other key has what it had; or there was too little memory.
  abbrev pub InsertOk : ℕ → ℕ → Node V → ℕ → V → List Bool → Inserted (Node V) × List Bool → Type ℓ
  InsertOk n hi t key value mem (inserted t', mem') =
      Fits n hi t'
      × ((j : ℕ) → lookup_from n t' j ≡ (if key == j then some value else lookup_from n t j))
  InsertOk n hi t key value mem (no_memory, mem') = Refused {ℓ} n mem
  InsertOk n hi t key value mem (too_deep, mem') = Never {ℓ}

  pub insert_vacant :
      (n key : ℕ) (value : V) (mem : List Bool)
      → rxtree_insert_node n vacant key value mem ≡ alloc_leaf key value mem
  unfolding rxtree_insert_node
  insert_vacant zero key value mem = refl
  insert_vacant (suc n) key value mem = refl

  pub vacant_left :
      (n key : ℕ) (value : V) (mem : List Bool)
      → (rxtree_insert_node n vacant key value mem).1 ≡ (kmalloc mem).1
  unfolding alloc_leaf
  vacant_left n key value mem = rw (insert_vacant n key value mem) refl

  pub alloc_leaf-InsertOk :
      (n hi key : ℕ) (value : V) (mem : List Bool) (t : Node V)
      → t ≡ vacant
      → shr n key ≡ hi
      → InsertOk n hi t key value mem (alloc_leaf key value mem)
  unfolding alloc_leaf
  alloc_leaf-InsertOk n hi key value mem t e h = elim (Bool-cases (kmalloc mem).0) [
    | inl f ↦ rw f (
      leaf-Fits n hi key value h,
      (λ j. rw (lookup-leaf n key j value, lookup-vacant n j t e) refl),
    )
    | inr f ↦ rw f (refused n mem f)
  ]

  -- A leaf of the same key gets the value.
  pub replaced :
      (n hi key p : ℕ) (value w : V) (mem : List Bool)
      → Fits n hi (leaf p w)
      → p ≡ key
      → InsertOk n hi (leaf p w) key value mem (inserted (leaf p value), mem)
  replaced n hi key p value w mem f e = (
    leaf-Fits n hi p value (Fits-leaf n hi p w f),
    (λ j.
        rw (lookup-leaf n p j value, lookup-leaf n p j w, e)
          (elim (Bool-cases (key == j)) [ inl g ↦ rw g refl | inr g ↦ rw g refl ])),
  )

  -- A child was changed by an insertion into it.
  pub descended :
      (n hi key : ℕ) (value : V) (mem : List Bool) (a b c d : Node V)
      → Fits (suc n) hi (branch a b c d)
      → (r : Inserted (Node V) × List Bool)
      → InsertOk n (hi * 4 + digit n key) (child (digit n key) (branch a b c d)) key value mem r
      → InsertOk
          (suc n)
          hi
          (branch a b c d)
          key
          value
          mem
          (put_child (digit n key) (branch a b c d) r)
  unfolding put_child lookup_from
  descended n hi key value mem a b c d f (inserted t, mem') (g, maps) = (
    set_child-Fits n hi (digit n key) t (branch a b c d) (a, b, c, d, refl) (omega arith) f g,
    (λ j.
        rw (lookup-set_child n (digit n key) j t (branch a b c d) (a, b, c, d, refl) (omega arith))
          (elim (Bool-cases (digit n key == digit n j)) [
            | inl e ↦ let same : digit n key ≡ digit n j = ground arith in rw (e, maps j, same) refl
            | inr e ↦ let ne : (key == j) ≡ false = digit_differs n key j e in rw (e, ne) refl
          ])),
  )
  descended n hi key value mem a b c d f (no_memory, mem') r = record {
    short = λ g. r.short (Granted-le (2 * n + 1) (2 * suc n + 1) mem g (omega arith));
  }
  descended n hi key value mem a b c d f (too_deep, mem') r = absurd r.never
