-- ===== src/RadixTree/Split.antt =====
-- The split of a leaf.
use yu_noob_kernel.Base.{
  ℕ, suc, ◌+◌, ◌*◌, ◌<◌, ◌≡◌, ◌⊎◌, refl, sym, ap, ◌∙◌, arith, Bool, true, false, Bool-cases, inl,
  inr, ◌==◌, if◌then◌else◌, ◌&&◌, List, Option, none, some,
}
use yu_noob_kernel.RadixTree.{
  Node, vacant, leaf, shr, digit, child, set_child, lookup_from, no_children, kmalloc, Inserted,
  inserted, no_memory, too_deep, alloc_leaf, split_apart, put_child, rxtree_insert_node,
}
use yu_noob_kernel.RadixTree.Digits.{digit_join, digit_same, digit_apart, shr-digit}
use yu_noob_kernel.RadixTree.Lookup.{
  Fits, vacant-Fits, leaf-Fits, lookup-vacant, lookup-leaf, set_child-Fits, lookup-set_child,
  IsBranch, set_child-IsBranch, lookup-branch, each_digit,
}
use yu_noob_kernel.RadixTree.Descend.{
  Granted, Granted-le, kmalloc-Granted, refused, InsertOk, insert_vacant, vacant_left,
}

module _ {ℓ} {V : Type ℓ} where
  no_child : (i : ℕ) → i < 4 → child i (no_children {V = V}) ≡ vacant
  unfolding child
  no_child i h = each_digit (λ i. child i (no_children {V = V}) ≡ vacant) refl refl refl refl i h

  -- The same for two leaves at one place.
  pick_below :
      (d ek ep : Bool) (value w : V)
      → (ek ≡ true → d ≡ true)
      → (ep ≡ true → d ≡ true)
      → (ek ≡ true → ep ≡ false)
      → ◌≡◌ {A = Option V}
          (if d then (if ep then some w else (if ek then some value else none)) else none)
          (if ek then some value else (if ep then some w else none))
  pick_below d ek ep value w hk hp o = ground arith

  no_children-Fits : (n hi : ℕ) (t : Node V) → t ≡ no_children → Fits (suc n) hi t
  unfolding Fits
  no_children-Fits n hi t e =
      rw e λ i h. vacant-Fits n (hi * 4 + i) (child i no_children) (no_child i h)

  -- Of two leaves at different places the one of the key is found; the four tests are whether the
  -- digits and the keys are the one looked for.
  pick_leaf :
      (dk dp ek ep : Bool) (value w : V)
      → (ek ≡ true → dk ≡ true)
      → (ep ≡ true → dp ≡ true)
      → (dk ≡ true → dp ≡ false)
      → ◌≡◌ {A = Option V}
          (if dp
            then (if ep then some w else none)
            else (if dk then (if ek then some value else none) else none))
          (if ek then some value else (if ep then some w else none))
  pick_leaf dk dp ek ep value w hk hp o = ground arith

  two_leaves :
      (n hi key p : ℕ) (value w : V)
      → shr (suc n) key ≡ hi
      → shr (suc n) p ≡ hi
      → (digit n key == digit n p) ≡ false
      → let t =
          set_child (digit n p) (leaf p w) (set_child (digit n key) (leaf key value) no_children) in
        Fits (suc n) hi t
        × ((j : ℕ)
            → lookup_from (suc n) t j
              ≡ (if key == j then some value else lookup_from (suc n) (leaf p w) j))
  two_leaves n hi key p value w hk hp o =
      let u : IsBranch no_children = (vacant, vacant, vacant, vacant, refl) in
      let u1 = set_child-IsBranch (digit n key) (leaf key value) no_children u in
      (
        set_child-Fits n hi (digit n p) (leaf p w) _ u1 (omega arith)
            (set_child-Fits n hi (digit n key) (leaf key value) no_children u (omega arith)
              (no_children-Fits n hi no_children refl)
              (leaf-Fits n _ key value (shr-digit n key hi hk)))
            (leaf-Fits n _ p w (shr-digit n p hi hp)),
        (λ j.
            let inner = set_child (digit n key) (leaf key value) no_children in
            lookup-set_child n (digit n p) j (leaf p w) inner u1 (omega arith)
            ∙ ap (λ o. if digit n p == digit n j then lookup_from n (leaf p w) j else o)
                (sym (lookup-branch n j inner u1)
                  ∙ lookup-set_child n (digit n key) j (leaf key value) no_children u (omega arith))
            ∙ rw
                (
                  lookup-leaf n p j w,
                  lookup-leaf n key j value,
                  lookup-vacant n j (child (digit n j) no_children)
                      (no_child (digit n j) (omega arith)),
                  lookup-leaf (suc n) p j w,
                )
                (pick_leaf (digit n key == digit n j) (digit n p == digit n j) (key == j) (p == j)
                  value w (digit_same n key j) (digit_same n p j) (digit_apart n key p j o))),
      )

  -- A leaf and a new key that differ at this digit.
  split_apart-InsertOk :
      (n hi key p : ℕ) (value w : V) (mem mem' : List Bool)
      → shr (suc n) key ≡ hi
      → shr (suc n) p ≡ hi
      → (digit n key == digit n p) ≡ false
      → ((k : ℕ) → Granted (suc k) mem → Granted k mem')
      → InsertOk
          (suc n)
          hi
          (leaf p w)
          key
          value
          mem
          (split_apart (digit n key) key value (digit n p) p w mem')
  unfolding split_apart
  split_apart-InsertOk n hi key p value w mem mem' hk hp o g =
      elim (Bool-cases ((kmalloc mem').0 && (kmalloc (kmalloc mem').1).0)) [
        | inl f ↦ rw f (two_leaves n hi key p value w hk hp o)
        | inr f ↦ rw f (record {
          short = λ m.
              let one =
                kmalloc-Granted 1 mem' (g 2 (Granted-le 3 (2 * suc n + 1) mem m (omega arith))) in
              let two = kmalloc-Granted 0 (kmalloc mem').1 one.1 in
              absurd (ground (arith, f, one.0, two.0));
        })
      ]

  -- The leaf that was there goes below the new one, when they agree at this digit.
  pushed_down :
      (n hi key p : ℕ) (value w : V) (mem mem1 : List Bool)
      → shr (suc n) key ≡ hi
      → shr (suc n) p ≡ hi
      → (p == key) ≡ false
      → (digit n key == digit n p) ≡ true
      → ((k : ℕ) → Granted (suc (suc k)) mem → Granted k mem1)
      → (r : Inserted (Node V) × List Bool)
      → InsertOk n (hi * 4 + digit n key) (leaf key value) p w mem1 r
      → InsertOk (suc n) hi (leaf p w) key value mem (put_child (digit n key) no_children r)
  unfolding put_child
  pushed_down n hi key p value w mem mem1 hk hp o e g (inserted t, mem2) (f, maps) =
      let u : IsBranch no_children = (vacant, vacant, vacant, vacant, refl) in
      (
        set_child-Fits n hi (digit n key) t no_children u (omega arith)
            (no_children-Fits n hi no_children refl) f,
        (λ j.
            lookup-set_child n (digit n key) j t no_children u (omega arith)
            ∙ rw
                (
                  maps j,
                  lookup-leaf n key j value,
                  lookup-vacant n j (child (digit n j) no_children)
                      (no_child (digit n j) (omega arith)),
                  lookup-leaf (suc n) p j w,
                )
                (pick_below (digit n key == digit n j) (key == j) (p == j) value w
                  (digit_same n key j) (λ h. digit_join n key p j e (digit_same n p j h))
                  (λ h. ground arith))),
      )
  pushed_down n hi key p value w mem mem1 hk hp o e g (no_memory, mem2) r = record {
    short = λ m.
        r.short
          (g (2 * n + 1) (Granted-le (suc (suc (2 * n + 1))) (2 * suc n + 1) mem m (omega arith)));
  }
  pushed_down n hi key p value w mem mem1 hk hp o e g (too_deep, mem2) r = absurd r.never

  -- A leaf of another key is split.
  pub split-InsertOk :
      (n hi key p : ℕ) (value w : V) (mem : List Bool)
      → ((hi : ℕ) (t : Node V) (key : ℕ) (value : V) (mem : List Bool)
          → Fits n hi t
          → shr n key ≡ hi
          → InsertOk n hi t key value mem (rxtree_insert_node n t key value mem))
      → shr (suc n) key ≡ hi
      → shr (suc n) p ≡ hi
      → (p == key) ≡ false
      → InsertOk
          (suc n)
          hi
          (leaf p w)
          key
          value
          mem
          (rxtree_insert_node (suc n) (leaf p w) key value mem)
  unfolding rxtree_insert_node
  split-InsertOk n hi key p value w mem deeper hk hp o = go (Bool-cases (kmalloc mem).0)
    where
      same_high : (digit n key == digit n p) ≡ true → shr n p ≡ hi * 4 + digit n key
      same_high e = let d : digit n key ≡ digit n p = ground arith in rw d (shr-digit n p hi hp)

      same_digit :
          (kmalloc mem).0 ≡ true
          → (digit n key == digit n p) ≡ true
          → InsertOk
              (suc n)
              hi
              (leaf p w)
              key
              value
              mem
              (rxtree_insert_node (suc n) (leaf p w) key value mem)
      same_digit f e = elim (Bool-cases (kmalloc (kmalloc mem).1).0) [
        | inl g ↦
            rw (o, f, e, insert_vacant n key value (kmalloc mem).1, alloc_leaf, g)
              (pushed_down n hi key p value w mem _ hk hp o e
                (λ k m.
                  rw (vacant_left n key value (kmalloc mem).1)
                    (kmalloc-Granted k (kmalloc mem).1 (kmalloc-Granted (suc k) mem m).1).1)
                _
                (deeper (hi * 4 + digit n key) (leaf key value) p w _
                  (leaf-Fits n _ key value (shr-digit n key hi hk)) (same_high e)))
        | inr g ↦
            rw (o, f, e, insert_vacant n key value (kmalloc mem).1, alloc_leaf, g)
              (record {
                short = λ m.
                    let two = Granted-le 2 (2 * suc n + 1) mem m (omega arith) in
                    let second =
                      (kmalloc-Granted 0 (kmalloc mem).1 (kmalloc-Granted 1 mem two).1).0 in
                    absurd (ground (arith, g, second));
              })
      ]

      go :
          ((kmalloc mem).0 ≡ true) ⊎ ((kmalloc mem).0 ≡ false)
          → InsertOk
              (suc n)
              hi
              (leaf p w)
              key
              value
              mem
              (rxtree_insert_node (suc n) (leaf p w) key value mem)
      go (inr f) = rw (o, f) (refused (suc n) mem f)
      go (inl f) = elim (Bool-cases (digit n key == digit n p)) [
        | inl e ↦ same_digit f e
        | inr e ↦
            rw (o, f, e)
              (split_apart-InsertOk n hi key p value w mem (kmalloc mem).1 hk hp e
                (λ k g. (kmalloc-Granted k mem g).1))
      ]
