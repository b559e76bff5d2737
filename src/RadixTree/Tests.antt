-- ===== src/RadixTree/Tests.antt =====
-- The theorems about src/misc/radix_tree.c at small trees.
use yu_noob_kernel.Base.{ℕ, ◌≡◌, refl, arith, true, [], ◌∷◌}
use yu_noob_kernel.Errno.{ok}
use yu_noob_kernel.RadixTree.{
  Node, vacant, leaf, branch, shr, inserted, no_memory, kmalloc, split_apart, set_child, child,
  rxtree_insert_node, rxtree_insert, rxtree_delete, rxtree_delete_node, merge, count_children,
  last_child,
}
use yu_noob_kernel.RadixTree.Lookup.{leaf-Fits}
use yu_noob_kernel.RadixTree.Insert.{IsValid, InsertDone, rxtree_insert_lem}
use yu_noob_kernel.RadixTree.Delete.{DeleteDone, rxtree_delete_lem}

-- The tree of one key.
abbrev one_key : Node ℕ
one_key = leaf 5 70

one_key-IsValid : IsValid one_key
unfolding shr
one_key-IsValid = leaf-Fits 32 0 5 70 refl

-- Two keys that differ at the first digit.
abbrev two_keys : Node ℕ
two_keys = branch (leaf 5 70) vacant (leaf 0x8000_0000_0000_0000 80) vacant

two_keys_made :
    rxtree_insert one_key 0x8000_0000_0000_0000 80 (true ∷ true ∷ true ∷ [])
    ≡ (inserted two_keys, [])
unfolding rxtree_insert rxtree_insert_node split_apart kmalloc set_child shr
two_keys_made = refl

refused_third : rxtree_insert one_key 0x8000_0000_0000_0000 80 (true ∷ true ∷ []) ≡ (no_memory, [])
unfolding rxtree_insert rxtree_insert_node split_apart kmalloc set_child shr
refused_third = refl

merged_again : rxtree_delete two_keys 0x8000_0000_0000_0000 ≡ ok one_key
unfolding rxtree_delete rxtree_delete_node merge count_children last_child set_child child shr
merged_again = refl

rxtree_insert_lem_example :
    InsertDone one_key 6 80 (true ∷ true ∷ []) (rxtree_insert one_key 6 80 (true ∷ true ∷ []))
rxtree_insert_lem_example =
    rxtree_insert_lem one_key 6 80 (true ∷ true ∷ []) one_key-IsValid (omega arith)

rxtree_delete_lem_example : DeleteDone one_key 5 (rxtree_delete one_key 5)
rxtree_delete_lem_example = rxtree_delete_lem one_key 5 one_key-IsValid
