-- ===== src/RadixTree/Delete.antt =====
-- What `rxtree_delete` does on every branch.
use yu_noob_kernel.Base.{
  ℕ, zero, suc, ◌+◌, ◌*◌, ◌≡◌, ◌≢◌, refl, sym, ◌∙◌, arith, Bool, Bool-cases, inl, inr, ◌==◌,
  if◌then◌else◌, Option, none, some,
}
use yu_noob_kernel.Errno.{einval, Result, ok, err}
use yu_noob_kernel.RadixTree.{
  Node, vacant, leaf, branch, digit, child, set_child, lookup_from, merge, rxtree_delete_node,
  rxtree_delete, rxtree_lookup,
}
use yu_noob_kernel.RadixTree.Digits.{digit_differs}
use yu_noob_kernel.RadixTree.Lookup.{
  Fits, vacant-Fits, lookup-vacant, lookup-leaf, set_child-Fits, lookup-set_child, IsBranch,
  set_child-IsBranch, lookup-branch,
}
use yu_noob_kernel.RadixTree.Insert.{IsValid}
use yu_noob_kernel.RadixTree.Merge.{merge-Same}

module _ {ℓ} {V : Type ℓ} where
  -- The outcome of a deletion from a subtree with `n` digits left.
  abbrev pub DeleteOk : ℕ → ℕ → Node V → ℕ → Result (Node V) → Type ℓ
  DeleteOk n hi t key (ok t') =
      Fits n hi t'
      × (lookup_from n t key ≢ none)
      × ((j : ℕ) → lookup_from n t' j ≡ (if key == j then none else lookup_from n t j))
  DeleteOk n hi t key (err e) = (e ≡ einval) × (lookup_from n t key ≡ none)

  delete_vacant : (n hi key : ℕ) (t : Node V) → t ≡ vacant → DeleteOk n hi t key (err einval)
  delete_vacant n hi key t e = (refl, lookup-vacant n key t e)

  delete_leaf :
      (n hi key p : ℕ) (v : V)
      → DeleteOk n hi (leaf p v) key (if p == key then ok vacant else err einval)
  delete_leaf n hi key p v = elim (Bool-cases (p == key)) [
    | inl e ↦
        let same : p ≡ key = ground arith in
        rw e (
          vacant-Fits n hi vacant refl,
          (λ z. absurd (some_is (lookup-leaf n p key v ∙ rw e refl) z)),
          (λ j.
              lookup-vacant n j vacant refl
              ∙ sym (rw (lookup-leaf n p j v, same) (gone (key == j)))),
        )
    | inr e ↦ rw e (refl, lookup-leaf n p key v ∙ rw e refl)
  ]
    where
      some_is : {o : Option V} → o ≡ some v → o ≢ none
      some_is h z = cc

      gone : (b : Bool) → (if b then none else (if b then some v else none)) ≡ none
      gone b = ground arith

  -- A child was changed by a deletion from it.
  shrunk :
      (n hi key : ℕ) (a b c d : Node V)
      → Fits (suc n) hi (branch a b c d)
      → (r : Result (Node V))
      → DeleteOk n (hi * 4 + digit n key) (child (digit n key) (branch a b c d)) key r
      → DeleteOk (suc n) hi (branch a b c d) key (elim r [
        | ok c' ↦ ok (merge (set_child (digit n key) c' (branch a b c d)))
        | err e ↦ err e
      ])
  shrunk n hi key a b c d f (err e) (h, l) =
      (h, lookup-branch n key (branch a b c d) (a, b, c, d, refl) ∙ l)
  shrunk n hi key a b c d f (ok t) (g, some_there, maps) =
      let u : IsBranch (branch a b c d) = (a, b, c, d, refl) in
      let i = digit n key in
      let put = set_child-Fits n hi i t (branch a b c d) u (omega arith) f g in
      let m = merge-Same n hi _ (set_child-IsBranch i t (branch a b c d) u) put in
      (
        m.fits,
        (λ z. some_there (sym (lookup-branch n key (branch a b c d) u) ∙ z)),
        (λ j.
            m.finds j
            ∙ lookup-set_child n i j t (branch a b c d) u (omega arith)
            ∙ elim (Bool-cases (i == digit n j)) [
              | inl e ↦
                  let same : digit n key ≡ digit n j = ground arith in
                  rw (e, maps j, lookup-branch n j (branch a b c d) u, same) refl
              | inr e ↦ rw (e, digit_differs n key j e, lookup-branch n j (branch a b c d) u) refl
            ]),
      )

  delete_node-DeleteOk :
      (n hi : ℕ) (t : Node V) (key : ℕ)
      → Fits n hi t
      → DeleteOk n hi t key (rxtree_delete_node n t key)
  unfolding rxtree_delete_node Fits
  delete_node-DeleteOk zero hi vacant key f = delete_vacant zero hi key vacant refl
  delete_node-DeleteOk zero hi (leaf p v) key f = delete_leaf zero hi key p v
  delete_node-DeleteOk zero hi (branch a b c d) key f = absurd f
  delete_node-DeleteOk (suc n) hi vacant key f = delete_vacant (suc n) hi key vacant refl
  delete_node-DeleteOk (suc n) hi (leaf p v) key f = delete_leaf (suc n) hi key p v
  delete_node-DeleteOk (suc n) hi (branch a b c d) key f = shrunk n hi key a b c d f _ (
      delete_node-DeleteOk n (hi * 4 + digit n key) (child (digit n key) (branch a b c d)) key
        (f (digit n key) (omega arith)))

  abbrev pub DeleteDone : Node V → ℕ → Result (Node V) → Type ℓ
  DeleteDone root key (ok t) =
      IsValid t
      × (rxtree_lookup root key ≢ none)
      × ((j : ℕ) → rxtree_lookup t j ≡ (if key == j then none else rxtree_lookup root j))
  DeleteDone root key (err e) = (e ≡ einval) × (rxtree_lookup root key ≡ none)

  -- `rxtree_delete` from a valid tree removes a key that is there, leaves every other key as it was,
  -- and gives a valid tree; a key that is not there is refused with EINVAL.
  pub rxtree_delete_lem :
      (root : Node V) (key : ℕ) → IsValid root → DeleteDone root key (rxtree_delete root key)
  unfolding rxtree_delete rxtree_lookup
  rxtree_delete_lem root key f =
      same (rxtree_delete_node 32 root key) (delete_node-DeleteOk 32 0 root key f)
    where
      same : (r : Result (Node V)) → DeleteOk 32 0 root key r → DeleteDone root key r
      same (ok t) k = k
      same (err e) k = k
