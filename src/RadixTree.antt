-- ===== src/RadixTree.antt =====
-- src/misc/radix_tree.c: a tree over the 32 digits of two bits of a 64-bit key. A value is not NULL,
-- and NULL is `none`. The prefix and the value of a node that is not a leaf are never read.
pub mod Digits
pub mod Lookup
pub mod Descend
pub mod Split
pub mod Insert
pub mod Merge
pub mod Delete
mod Tests
use yu_noob_kernel.Base.{
  ℕ, zero, suc, ◌+◌, ◌*◌, ◌/◌, ◌%◌, Bool, true, false, ◌==◌, if◌then◌else◌, ◌&&◌, List, [], ◌∷◌,
  Option, none, some,
}
use yu_noob_kernel.Errno.{Errno, einval, enomem, Result, ok, err}

-- `struct rxtree_node *`: `vacant` is NULL, and a `branch` has the four children.
pub data Node {ℓ} (V : Type ℓ) : Type ℓ where
  vacant : Node V
  leaf : ℕ → V → Node V
  branch : Node V → Node V → Node V → Node V → Node V

-- `key >> 2 * n`.
unfoldable pub shr : ℕ → ℕ → ℕ
shr zero key = key
shr (suc n) key = shr n (key / 4)

-- `(key & mask) >> shift` with `shift = 2 * n`. At `depth` the source has `n = 31 - depth`.
abbrev pub digit : ℕ → ℕ → ℕ
digit n key = shr n key % 4

-- What a call of `kmalloc` answers: one flag for each call, in order; there is no memory behind the
-- last of them.
unfoldable pub kmalloc : List Bool → Bool × List Bool
kmalloc [] = (false, [])
kmalloc (b ∷ mem) = (b, mem)

-- The result of an insertion; `too_deep` stands for a shift by a negative number.
pub data Inserted {ℓ} (A : Type ℓ) : Type ℓ where
  inserted : A → Inserted A
  no_memory : Inserted A
  too_deep : Inserted A

module _ {ℓ} {V : Type ℓ} where
  -- `node->children[i]`.
  unfoldable pub child : ℕ → Node V → Node V
  child i vacant = vacant
  child i (leaf p v) = vacant
  child i (branch a b c d) = if i == 0 then a else if i == 1 then b else if i == 2 then c else d

  -- `node->children[i] = x`.
  unfoldable pub set_child : ℕ → Node V → Node V → Node V
  set_child i x (branch a b c d) =
      if i == 0
      then branch x b c d
      else if i == 1
      then branch a x c d
      else if i == 2
      then branch a b x d
      else branch a b c x
  set_child i x t = t

  abbrev pub rxtree_init : Node V
  rxtree_init = vacant

  -- `rxtree_free`: the tree afterwards; every node is freed.
  abbrev pub rxtree_free : Node V → Node V
  rxtree_free root = vacant

  -- `rxtree_node_alloc(0, false, NULL)`.
  abbrev pub no_children : Node V
  no_children = branch vacant vacant vacant vacant

  -- `rxtree_node_alloc` of a leaf.
  unfoldable pub alloc_leaf : ℕ → V → List Bool → Inserted (Node V) × List Bool
  unfolding kmalloc
  alloc_leaf key value mem =
      let (found, mem') = kmalloc mem in
      (if found then inserted (leaf key value) else no_memory, mem')

  -- The split of a leaf at two digits that differ.
  unfoldable pub split_apart : ℕ → ℕ → V → ℕ → ℕ → V → List Bool → Inserted (Node V) × List Bool
  unfolding kmalloc set_child
  split_apart i key value j prefix old mem =
      let (found1, mem1) = kmalloc mem in
      let (found2, mem2) = kmalloc mem1 in
      (
        if found1 && found2
            then inserted (set_child j (leaf prefix old) (set_child i (leaf key value) no_children))
            else no_memory,
        mem2,
      )

  -- The child put back at its place.
  unfoldable pub put_child :
      ℕ → Node V → Inserted (Node V) × List Bool → Inserted (Node V) × List Bool
  unfolding set_child
  put_child i t (inserted c, mem) = (inserted (set_child i c t), mem)
  put_child i t (no_memory, mem) = (no_memory, mem)
  put_child i t (too_deep, mem) = (too_deep, mem)

  -- `rxtree_insert_node` with `n` digits left.
  unfoldable pub rxtree_insert_node : ℕ → Node V → ℕ → V → List Bool → Inserted (Node V) × List Bool
  unfolding alloc_leaf split_apart put_child kmalloc child
  rxtree_insert_node zero vacant key value mem = alloc_leaf key value mem
  rxtree_insert_node zero (leaf p w) key value mem =
      if p == key then (inserted (leaf p value), mem) else (too_deep, mem)
  rxtree_insert_node zero (branch a b c d) key value mem = (too_deep, mem)
  rxtree_insert_node (suc n) vacant key value mem = alloc_leaf key value mem
  rxtree_insert_node (suc n) (leaf p w) key value mem =
      if p == key
      then (inserted (leaf p value), mem)
      else let (found, mem') = kmalloc mem in
        let (first, mem1) = rxtree_insert_node n vacant key value mem' in
        elim found [
          | false ↦ (no_memory, mem')
          | true ↦
              if digit n key == digit n p
              then elim first [
                | inserted c ↦ put_child (digit n key) no_children (rxtree_insert_node n c p w mem1)
                | no_memory ↦ (no_memory, mem1)
                | too_deep ↦ (too_deep, mem1)
              ]
              else split_apart (digit n key) key value (digit n p) p w mem'
        ]
  rxtree_insert_node (suc n) (branch a b c d) key value mem =
      put_child (digit n key) (branch a b c d)
        (rxtree_insert_node n (child (digit n key) (branch a b c d)) key value mem)

  -- `rxtree_insert`.
  unfoldable pub rxtree_insert : Node V → ℕ → V → List Bool → Inserted (Node V) × List Bool
  unfolding rxtree_insert_node
  rxtree_insert root key value mem = rxtree_insert_node 32 root key value mem

  -- The loop of `rxtree_lookup` with `n` digits left, and the test behind it.
  unfoldable pub lookup_from : ℕ → Node V → ℕ → Option V
  unfolding child
  lookup_from zero vacant key = none
  lookup_from zero (leaf p v) key = if p == key then some v else none
  lookup_from zero (branch a b c d) key = none
  lookup_from (suc n) vacant key = none
  lookup_from (suc n) (leaf p v) key = if p == key then some v else none
  lookup_from (suc n) (branch a b c d) key =
      lookup_from n (child (digit n key) (branch a b c d)) key

  -- `rxtree_lookup`.
  unfoldable pub rxtree_lookup : Node V → ℕ → Option V
  unfolding lookup_from
  rxtree_lookup root key = lookup_from 32 root key

  -- 1 for a child that is not NULL.
  abbrev pub filled : Node V → ℕ
  filled vacant = 0
  filled _ = 1

  abbrev pub is_leaf : Node V → Bool
  is_leaf (leaf p v) = true
  is_leaf _ = false

  -- `count` and `child` behind the loop of `rxtree_delete_node`.
  unfoldable pub count_children : Node V → ℕ
  count_children (branch a b c d) = filled a + filled b + filled c + filled d
  count_children _ = 0

  unfoldable pub last_child : Node V → Node V
  last_child (branch a b c d) =
      if filled d == 1 then d else if filled c == 1 then c else if filled b == 1 then b else a
  last_child _ = vacant

  -- The end of `rxtree_delete_node`: a branch with one leaf becomes the leaf, one with nothing NULL.
  unfoldable pub merge : Node V → Node V
  unfolding count_children last_child
  merge t =
      if count_children t == 1 && is_leaf (last_child t)
      then last_child t
      else if count_children t == 0
      then vacant
      else t

  -- `rxtree_delete_node` with `n` digits left.
  unfoldable pub rxtree_delete_node : ℕ → Node V → ℕ → Result (Node V)
  unfolding child set_child merge
  rxtree_delete_node zero vacant key = err einval
  rxtree_delete_node zero (leaf p v) key = if p == key then ok vacant else err einval
  rxtree_delete_node zero (branch a b c d) key = err einval
  rxtree_delete_node (suc n) vacant key = err einval
  rxtree_delete_node (suc n) (leaf p v) key = if p == key then ok vacant else err einval
  rxtree_delete_node (suc n) (branch a b c d) key =
      elim (rxtree_delete_node n (child (digit n key) (branch a b c d)) key) [
        | ok c' ↦ ok (merge (set_child (digit n key) c' (branch a b c d)))
        | err e ↦ err e
      ]

  -- `rxtree_delete`.
  unfoldable pub rxtree_delete : Node V → ℕ → Result (Node V)
  unfolding rxtree_delete_node
  rxtree_delete root key = rxtree_delete_node 32 root key
