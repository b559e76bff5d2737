-- ===== src/RadixTree/Lookup.antt =====
-- Where the leaves of a tree stand, and what a look-up finds in a tree that was changed at one child.
use yu_noob_kernel.Base.{
  ℕ, zero, suc, ◌+◌, ◌*◌, ◌<◌, ◌≡◌, ◌≢◌, refl, arith, Bool-cases, inl, inr, ◌==◌, if◌then◌else◌,
  none, some,
}
use yu_noob_kernel.RadixTree.{Node, vacant, leaf, branch, shr, digit, child, set_child, lookup_from}
use yu_noob_kernel.RadixTree.Digits.{shr-suc}

-- A statement on the four digits.
pub each_digit {ℓ} : (P : ℕ → Type ℓ) → P 0 → P 1 → P 2 → P 3 → (i : ℕ) → i < 4 → P i
each_digit P a b c d zero h = a
each_digit P a b c d (suc zero) h = b
each_digit P a b c d (suc (suc zero)) h = c
each_digit P a b c d (suc (suc (suc zero))) h = d
each_digit P a b c d (suc (suc (suc (suc i)))) h = absurd (omega arith)

module _ {ℓ} {V : Type ℓ} where
  -- In a subtree with `n` digits left all keys have the same digits `hi` before those.
  unfoldable pub Fits : ℕ → ℕ → Node V → Type 0
  Fits zero hi vacant = Unit
  Fits zero hi (leaf p v) = p ≡ hi
  Fits zero hi (branch a b c d) = ⊥
  Fits (suc n) hi vacant = Unit
  Fits (suc n) hi (leaf p v) = shr (suc n) p ≡ hi
  Fits (suc n) hi (branch a b c d) =
      (i : ℕ) → i < 4 → Fits n (hi * 4 + i) (child i (branch a b c d))

  pub vacant-Fits : (n hi : ℕ) (t : Node V) → t ≡ vacant → Fits n hi t
  unfolding Fits
  vacant-Fits zero hi t e = rw e tt
  vacant-Fits (suc n) hi t e = rw e tt

  pub leaf-Fits : (n hi p : ℕ) (v : V) → shr n p ≡ hi → Fits n hi (leaf p v)
  unfolding Fits shr
  leaf-Fits zero hi p v h = h
  leaf-Fits (suc n) hi p v h = h

  pub Fits-leaf : (n hi p : ℕ) (v : V) → Fits n hi (leaf p v) → shr n p ≡ hi
  unfolding Fits shr
  Fits-leaf zero hi p v h = h
  Fits-leaf (suc n) hi p v h = h

  pub lookup-vacant : (n j : ℕ) (t : Node V) → t ≡ vacant → lookup_from n t j ≡ none
  unfolding lookup_from
  lookup-vacant zero j t e = rw e refl
  lookup-vacant (suc n) j t e = rw e refl

  pub lookup-leaf :
      (n p j : ℕ) (v : V) → lookup_from n (leaf p v) j ≡ (if p == j then some v else none)
  unfolding lookup_from
  lookup-leaf zero p j v = refl
  lookup-leaf (suc n) p j v = refl

  pub child-set_child :
      (i j : ℕ) (x a b c d : Node V)
      → i < 4
      → j < 4
      → child j (set_child i x (branch a b c d)) ≡ (if i == j then x else child j (branch a b c d))
  unfolding child set_child
  child-set_child i j x a b c d hi hj =
      let Put : ℕ → ℕ → Type ℓ = λ i j.
        child j (set_child i x (branch a b c d))
        ≡ (if i == j then x else child j (branch a b c d)) in
      each_digit (λ i. Put i j) (each_digit (Put 0) refl refl refl refl j hj)
        (each_digit (Put 1) refl refl refl refl j hj) (each_digit (Put 2) refl refl refl refl j hj)
        (each_digit (Put 3) refl refl refl refl j hj) i hi

  -- A branch, with its children left open.
  abbrev pub IsBranch : Node V → Type ℓ
  IsBranch t = (a : Node V) × (b : Node V) × (c : Node V) × (d : Node V) × (t ≡ branch a b c d)

  pub set_child-branch-IsBranch :
      (i : ℕ) (x a b c d : Node V) → IsBranch (set_child i x (branch a b c d))
  unfolding set_child
  set_child-branch-IsBranch i x a b c d = elim (Bool-cases (i == 0)) [
    | inl e ↦ (x, b, c, d, rw e)
    | inr e ↦ elim (Bool-cases (i == 1)) [
      | inl f ↦ (a, x, c, d, rw (e, f))
      | inr f ↦ elim (Bool-cases (i == 2)) [
        | inl g ↦ (a, b, x, d, rw (e, f, g))
        | inr g ↦ (a, b, c, x, rw (e, f, g))
      ]
    ]
  ]

  pub lookup-branch :
      (n j : ℕ) (t : Node V)
      → IsBranch t
      → lookup_from (suc n) t j ≡ lookup_from n (child (digit n j) t) j
  unfolding lookup_from
  lookup-branch n j t (a, b, c, d, e) = rw e refl

  pub branch-Fits :
      (n hi : ℕ) (t : Node V)
      → IsBranch t
      → ((i : ℕ) → i < 4 → Fits n (hi * 4 + i) (child i t))
      → Fits (suc n) hi t
  unfolding Fits
  branch-Fits n hi t (a, b, c, d, e) h = rw e (rw e at h)

  pub Fits-child :
      (n hi i : ℕ) (t : Node V)
      → IsBranch t
      → Fits (suc n) hi t
      → i < 4
      → Fits n (hi * 4 + i) (child i t)
  unfolding Fits
  Fits-child n hi i t (a, b, c, d, e) h l = rw e ((rw e at h) i l)

  child-set_child-branch :
      (i j : ℕ) (x t : Node V)
      → IsBranch t
      → i < 4
      → j < 4
      → child j (set_child i x t) ≡ (if i == j then x else child j t)
  child-set_child-branch i j x t (a, b, c, d, e) l m = rw e (child-set_child i j x a b c d l m)

  pub set_child-IsBranch : (i : ℕ) (x t : Node V) → IsBranch t → IsBranch (set_child i x t)
  set_child-IsBranch i x t (a, b, c, d, e) = rw e (set_child-branch-IsBranch i x a b c d)

  pub set_child-Fits :
      (n hi i : ℕ) (x t : Node V)
      → IsBranch t
      → i < 4
      → Fits (suc n) hi t
      → Fits n (hi * 4 + i) x
      → Fits (suc n) hi (set_child i x t)
  set_child-Fits n hi i x t u l h f = branch-Fits n hi _ (set_child-IsBranch i x t u) λ j m.
      elim (Bool-cases (i == j)) [
        | inl e ↦
            let same : i ≡ j = ground arith in
            rw (child-set_child-branch i j x t u l m, e) (rw same at f)
        | inr e ↦ rw (child-set_child-branch i j x t u l m, e) (Fits-child n hi j t u h m)
      ]

  pub lookup-set_child :
      (n i j : ℕ) (x t : Node V)
      → IsBranch t
      → i < 4
      → lookup_from (suc n) (set_child i x t) j
        ≡ (if i == digit n j then lookup_from n x j else lookup_from n (child (digit n j) t) j)
  lookup-set_child n i j x t u l =
      rw
        (
          lookup-branch n j _ (set_child-IsBranch i x t u),
          child-set_child-branch i (digit n j) x t u l (omega arith),
        )
        (elim (Bool-cases (i == digit n j)) [ inl e ↦ rw e refl | inr e ↦ rw e refl ])

  -- A key with other digits before is not found.
  pub lookup_off : (n hi j : ℕ) (t : Node V) → Fits n hi t → shr n j ≢ hi → lookup_from n t j ≡ none
  unfolding Fits lookup_from shr
  lookup_off zero hi j vacant h o = refl
  lookup_off zero hi j (leaf p v) h o = ground arith
  lookup_off zero hi j (branch a b c d) h o = absurd h
  lookup_off (suc n) hi j vacant h o = refl
  lookup_off (suc n) hi j (leaf p v) h o = elim (Bool-cases (p == j)) [
    | inl e ↦ let same : p ≡ j = ground arith in absurd (o (rw same at h))
    | inr e ↦ rw e refl
  ]
  lookup_off (suc n) hi j (branch a b c d) h o =
      lookup_off n (hi * 4 + digit n j) j (child (digit n j) (branch a b c d))
        (h (digit n j) (omega arith)) (λ e. o (omega (arith, shr-suc n j)))
