-- ===== src/RadixTree/Insert.antt =====
-- What `rxtree_insert` does on every branch.
use yu_noob_kernel.Base.{
  ℕ, zero, suc, ◌+◌, ◌*◌, ◌^◌, ◌<◌, ◌≡◌, refl, sym, ◌∙◌, arith, Bool, Bool-cases, inl, inr, ◌==◌,
  ==_refl, if◌then◌else◌, List, some,
}
use yu_noob_kernel.RadixTree.{
  Node, vacant, leaf, branch, shr, digit, child, Inserted, inserted, no_memory, too_deep,
  rxtree_insert_node, rxtree_insert, rxtree_lookup,
}
use yu_noob_kernel.RadixTree.Digits.{shr-digit, shr-small}
use yu_noob_kernel.RadixTree.Lookup.{Fits}
use yu_noob_kernel.RadixTree.Descend.{
  Refused, Never, InsertOk, alloc_leaf-InsertOk, replaced, descended,
}
use yu_noob_kernel.RadixTree.Split.{split-InsertOk}

module _ {ℓ} {V : Type ℓ} where
  -- `rxtree_insert_node` with `n` digits left.
  insert_node-InsertOk :
      (n hi : ℕ) (t : Node V) (key : ℕ) (value : V) (mem : List Bool)
      → Fits n hi t
      → shr n key ≡ hi
      → InsertOk n hi t key value mem (rxtree_insert_node n t key value mem)
  unfolding rxtree_insert_node Fits shr
  insert_node-InsertOk zero hi vacant key value mem f h =
      alloc_leaf-InsertOk zero hi key value mem vacant refl h
  insert_node-InsertOk zero hi (leaf p w) key value mem f h =
      let same : p ≡ key = f ∙ sym h in
      rw (same, ==_refl key) (rw same at (replaced zero hi key p value w mem f same))
  insert_node-InsertOk zero hi (branch a b c d) key value mem f h = absurd f
  insert_node-InsertOk (suc n) hi vacant key value mem f h =
      alloc_leaf-InsertOk (suc n) hi key value mem vacant refl h
  insert_node-InsertOk (suc n) hi (leaf p w) key value mem f h = elim (Bool-cases (p == key)) [
    | inl e ↦ rw e (replaced (suc n) hi key p value w mem f (ground arith))
    | inr e ↦
        split-InsertOk n hi key p value w mem
          (λ hi t k v m f h. insert_node-InsertOk n hi t k v m f h) h f e
  ]
  insert_node-InsertOk (suc n) hi (branch a b c d) key value mem f h =
      descended n hi key value mem a b c d f _ (
        insert_node-InsertOk n (hi * 4 + digit n key) (child (digit n key) (branch a b c d)) key
          value mem (f (digit n key) (omega arith)) (shr-digit n key hi h))

  -- The leaves of a tree stand where the digits of their keys lead.
  abbrev pub IsValid : Node V → Type 0
  IsValid root = Fits 32 0 root

  -- What `rxtree_insert` answers: a tree that maps the key to the value and every other key to what
  -- it had; or no memory, and then one of the first 65 calls of `kmalloc` was refused.
  abbrev pub InsertDone : Node V → ℕ → V → List Bool → Inserted (Node V) × List Bool → Type ℓ
  InsertDone root key value mem (inserted t, mem') =
      IsValid t
      × ((j : ℕ) → rxtree_lookup t j ≡ (if key == j then some value else rxtree_lookup root j))
  InsertDone root key value mem (no_memory, mem') = Refused {ℓ} 32 mem
  InsertDone root key value mem (too_deep, mem') = Never {ℓ}

  -- `rxtree_insert` of a 64-bit key into a valid tree never shifts by a negative number. It gives a
  -- valid tree that maps the key to the value and every other key to what it had, or it runs out of
  -- memory, which needs a refusal among the first 65 calls of `kmalloc`.
  pub rxtree_insert_lem :
      (root : Node V) (key : ℕ) (value : V) (mem : List Bool)
      → IsValid root
      → key < 2 ^ 64
      → InsertDone root key value mem (rxtree_insert root key value mem)
  unfolding rxtree_insert rxtree_lookup
  rxtree_insert_lem root key value mem f h =
      same (rxtree_insert_node 32 root key value mem)
        (insert_node-InsertOk 32 0 root key value mem f (shr-small 32 key (omega arith)))
    where
      same :
          (r : Inserted (Node V) × List Bool)
          → InsertOk 32 0 root key value mem r
          → InsertDone root key value mem r
      same (inserted t, mem') k = k
      same (no_memory, mem') k = k
      same (too_deep, mem') k = k
