-- ===== src/RadixTree/Merge.antt =====
-- A branch with one leaf or none.
use yu_noob_kernel.Base.{
  ℕ, suc, ◌+◌, ◌*◌, ◌≤◌, ◌<◌, ◌≡◌, ◌≢◌, ◌⊎◌, refl, sym, ◌∙◌, arith, Bool, true, false, Bool-cases,
  inl, inr, ◌==◌, if◌then◌else◌, ◌&&◌, none, some,
}
use yu_noob_kernel.RadixTree.{
  Node, vacant, leaf, branch, digit, child, lookup_from, filled, is_leaf, count_children,
  last_child, merge,
}
use yu_noob_kernel.RadixTree.Digits.{digit_differs, shr-hi}
use yu_noob_kernel.RadixTree.Lookup.{
  Fits, vacant-Fits, leaf-Fits, Fits-leaf, lookup-vacant, lookup-leaf, Fits-child, each_digit,
  IsBranch, lookup-branch,
}

both : (x y : Bool) → (x && y) ≡ true → (x ≡ true) × (y ≡ true)
both x y h = ground arith

module _ {ℓ} {V : Type ℓ} where
  filled-zero : (t : Node V) → filled t ≡ 0 → t ≡ vacant
  filled-zero vacant h = refl
  filled-zero (leaf p v) h = absurd (omega arith)
  filled-zero (branch a b c d) h = absurd (omega arith)

  filled-le : (t : Node V) → filled t ≤ 1
  filled-le vacant = omega arith
  filled-le (leaf p v) = omega arith
  filled-le (branch a b c d) = omega arith

  leaf_of : (t : Node V) → is_leaf t ≡ true → (p : ℕ) × (v : V) × (t ≡ leaf p v)
  leaf_of vacant h = absurd (ground (arith, h))
  leaf_of (leaf p v) h = (p, v, refl)
  leaf_of (branch a b c d) h = absurd (ground (arith, h))

  -- The child `i` is `x`, and no other is there.
  record Only (t : Node V) (i : ℕ) (x : Node V) : Type ℓ where
    place : i < 4
    here : child i t ≡ x
    rest : (j : ℕ) → j < 4 → j ≢ i → child j t ≡ vacant

  none_left :
      (a b c d : Node V)
      → count_children (branch a b c d) ≡ 0
      → (j : ℕ) → j < 4
      → child j (branch a b c d) ≡ vacant
  unfolding count_children child
  none_left a b c d h =
      each_digit (λ j. child j (branch a b c d) ≡ vacant) (filled-zero a (omega arith))
        (filled-zero b (omega arith)) (filled-zero c (omega arith)) (filled-zero d (omega arith))

  last-Only :
      (a b c d : Node V)
      → count_children (branch a b c d) ≡ 1
      → (i : ℕ) × Only (branch a b c d) i (last_child (branch a b c d))
  unfolding count_children child last_child
  last-Only a b c d h = elim (Bool-cases (filled d == 1)) [
    | inl e ↦
        let k : filled d ≡ 1 = ground arith in
        (
          3,
          rw e (record {
            place = omega arith;
            here = refl;
            rest =
                each_digit (λ j. j ≢ 3 → child j (branch a b c d) ≡ vacant)
                  (λ o. filled-zero a (omega arith)) (λ o. filled-zero b (omega arith))
                  (λ o. filled-zero c (omega arith)) (λ o. absurd (o refl));
          }),
        )
    | inr e ↦ elim (Bool-cases (filled c == 1)) [
      | inl f ↦
          let k : filled c ≡ 1 = ground arith in
          (
            2,
            rw (e, f)
                (record {
                  place = omega arith;
                  here = refl;
                  rest =
                      each_digit (λ j. j ≢ 2 → child j (branch a b c d) ≡ vacant)
                        (λ o. filled-zero a (omega arith)) (λ o. filled-zero b (omega arith))
                        (λ o. absurd (o refl)) (λ o. filled-zero d (omega arith));
                }),
          )
      | inr f ↦ elim (Bool-cases (filled b == 1)) [
        | inl g ↦
            let k : filled b ≡ 1 = ground arith in
            (
              1,
              rw (e, f, g)
                  (record {
                    place = omega arith;
                    here = refl;
                    rest =
                        each_digit (λ j. j ≢ 1 → child j (branch a b c d) ≡ vacant)
                          (λ o. filled-zero a (omega arith)) (λ o. absurd (o refl))
                          (λ o. filled-zero c (omega arith)) (λ o. filled-zero d (omega arith));
                  }),
            )
        | inr g ↦
            let kd : filled d ≡ 0 = ground (arith, filled-le d) in
            let kc : filled c ≡ 0 = ground (arith, filled-le c) in
            let kb : filled b ≡ 0 = ground (arith, filled-le b) in
            (
              0,
              rw (e, f, g)
                  (record {
                    place = omega arith;
                    here = refl;
                    rest =
                        each_digit (λ j. j ≢ 0 → child j (branch a b c d) ≡ vacant)
                          (λ o. absurd (o refl)) (λ o. filled-zero b kb) (λ o. filled-zero c kc)
                          (λ o. filled-zero d kd);
                  }),
            )
      ]
    ]
  ]

  -- The tree means the same with a branch merged.
  pub record Same (n hi : ℕ) (t t' : Node V) : Type ℓ where
    pub fits : Fits (suc n) hi t'
    pub finds : (j : ℕ) → lookup_from (suc n) t' j ≡ lookup_from (suc n) t j

  lifted :
      (n hi i p : ℕ) (v : V) (t : Node V)
      → IsBranch t
      → Fits (suc n) hi t
      → Only t i (leaf p v)
      → Same n hi t (leaf p v)
  lifted n hi i p v t u f o =
      let below : Fits n (hi * 4 + i) (leaf p v) = rw o.here at (Fits-child n hi i t u f o.place) in
      let (high, low) = shr-hi n p hi i o.place (Fits-leaf n (hi * 4 + i) p v below) in
      record {
        fits = leaf-Fits (suc n) hi p v high;
        finds = λ j.
            lookup-leaf (suc n) p j v
            ∙ sym (lookup-branch n j t u ∙ found j low (Bool-cases (i == digit n j)));
      }
    where
      found :
          (j : ℕ)
          → digit n p ≡ i
          → ((i == digit n j) ≡ true) ⊎ ((i == digit n j) ≡ false)
          → lookup_from n (child (digit n j) t) j ≡ (if p == j then some v else none)
      found j low (inl e) =
          let same : digit n j ≡ i = ground arith in rw (same, o.here) (lookup-leaf n p j v)
      found j low (inr e) =
          let other : digit n j ≢ i = ground arith in
          let ne : (p == j) ≡ false = digit_differs n p j (rw low e) in
          rw ne (lookup-vacant n j _ (o.rest (digit n j) (omega arith) other))

  lifted_leaf :
      (n hi i : ℕ) (x t : Node V)
      → IsBranch t
      → Fits (suc n) hi t
      → Only t i x
      → (p : ℕ) × (v : V) × (x ≡ leaf p v)
      → Same n hi t x
  lifted_leaf n hi i x t u f o (p, v, e) = rw e (lifted n hi i p v t u f (rw e at o))

  -- The three cases of `merge`.
  merge-cases :
      (t : Node V)
      → ((count_children t ≡ 1) × (is_leaf (last_child t) ≡ true) × (merge t ≡ last_child t))
        ⊎ (((count_children t ≡ 0) × (merge t ≡ vacant)) ⊎ (merge t ≡ t))
  unfolding merge
  merge-cases t = elim (Bool-cases (count_children t == 1 && is_leaf (last_child t))) [
    | inl g ↦
        let (h, l) = both (count_children t == 1) (is_leaf (last_child t)) g in
        inl (ground arith, l, rw g refl)
    | inr g ↦ inr (elim (Bool-cases (count_children t == 0)) [
      | inl h ↦ inl (ground arith, rw (g, h) refl)
      | inr h ↦ inr (rw (g, h) refl)
    ])
  ]

  merged-Same :
      (n hi : ℕ) (a b c d : Node V) (t' : Node V)
      → Fits (suc n) hi (branch a b c d)
      → ((count_children (branch a b c d) ≡ 1)
          × (is_leaf (last_child (branch a b c d)) ≡ true)
          × (t' ≡ last_child (branch a b c d)))
        ⊎ (((count_children (branch a b c d) ≡ 0) × (t' ≡ vacant)) ⊎ (t' ≡ branch a b c d))
      → Same n hi (branch a b c d) t'
  merged-Same n hi a b c d t' f (inl (one, l, e)) =
      let (i, o) = last-Only a b c d one in
      rw e (
        lifted_leaf n hi i (last_child (branch a b c d)) (branch a b c d) (a, b, c, d, refl) f o
          (leaf_of (last_child (branch a b c d)) l))
  merged-Same n hi a b c d t' f (inr (inl (h, e))) = rw e (record {
    fits = vacant-Fits (suc n) hi vacant refl;
    finds = λ j.
        lookup-vacant (suc n) j vacant refl
        ∙ sym (
            lookup-branch n j (branch a b c d) (a, b, c, d, refl)
            ∙ lookup-vacant n j _ (none_left a b c d h (digit n j) (omega arith)));
  })
  merged-Same n hi a b c d t' f (inr (inr e)) = rw e (record { fits = f; finds = λ j. refl })

  pub merge-Same : (n hi : ℕ) (t : Node V) → IsBranch t → Fits (suc n) hi t → Same n hi t (merge t)
  merge-Same n hi t (a, b, c, d, e) f =
      rw e (merged-Same n hi a b c d _ (rw e at f) (merge-cases (branch a b c d)))
