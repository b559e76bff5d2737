-- ===== src/Icache/Tests.antt =====
-- Runs of the inode operations, and the theorems at concrete states.
use yu_noob_kernel.Base.{ℕ, ◌≡◌, ◌≢◌, refl, arith, true, false, [], none, some, replicate}
use yu_noob_kernel.Errno.{Result, ok}
use yu_noob_kernel.HashTable.{hashtable_lookup, hashtable_init, find_node, hash_ptr, hash_bytes}
use yu_noob_kernel.Icache.{
  Inode, InodeState, SuperOps, crash, found, null, no_ops, set_inode, fresh_inode, allocated,
  inode_init, inode_alloc, inode_get, finish_get, inode_hash, inode_put, inode_dirty, inode_write,
  inode_truncate, is_dirty,
}
use yu_noob_kernel.Icache.Inv.{IsConsistent, inode_init-IsConsistent}
use yu_noob_kernel.Icache.Get.{GetOk, inode_get-GetOk}
use yu_noob_kernel.Icache.Put.{Dropped, leaves, inode_put-Dropped}
use yu_noob_kernel.Icache.RoundTrip.{inode_get-put}
use yu_noob_kernel.Icache.Dirty.{inode_dirty-write, inode_alloc-write, inode_truncate-stuck, is_err}

abbrev memory : ℕ → Inode
memory p = fresh_inode none

abbrev empty_state : InodeState
empty_state = record {
  ht = record { buckets = replicate 64 []; size = 64; count = 0 };
  inodes = memory;
  inode_list = [];
  count = 0;
}

empty_made : inode_init memory true ≡ ok empty_state
unfolding inode_init hashtable_init
empty_made = refl

empty-IsConsistent :
    IsConsistent empty_state × ((ino : ℕ) → hashtable_lookup empty_state.ht ino ≡ none)
empty-IsConsistent = inode_init-IsConsistent memory true empty_made

nothing_there : (p q : ℕ) → hashtable_lookup empty_state.ht q ≢ some p
nothing_there p q h = absurd (ground (arith, empty-IsConsistent.1 q, h))

abbrev one_inode : InodeState
one_inode = (inode_get empty_state none 5 no_ops (some 9) true).0

inode_get-GetOk_example :
    GetOk empty_state 5 no_ops (some 9) true (inode_get empty_state none 5 no_ops (some 9) true)
inode_get-GetOk_example =
    inode_get-GetOk empty_state none 5 no_ops (some 9) true empty-IsConsistent.0 (omega arith)
      (λ p h. nothing_there p)

-- An allocation by the file system that gives NULL is not seen.
null_is_stored_through :
    (inode_get empty_state none 5 (record no_ops { alloc_inode = some null }) none true).1 ≡ crash
unfolding inode_get finish_get inode_alloc allocated hashtable_lookup find_node hash_ptr hash_bytes
    replicate
null_is_stored_through = refl

one_inode-IsConsistent : IsConsistent one_inode
unfolding inode_get finish_get inode_alloc allocated hashtable_lookup find_node hash_ptr hash_bytes
    replicate
one_inode-IsConsistent =
    let h : GetOk empty_state 5 no_ops (some 9) true (one_inode, found 9) =
      inode_get-GetOk_example in
    h.consistent

abbrev keeping : SuperOps
keeping = record no_ops { destroy_inode = true }

-- The file system frees the inode, and the table still has it.
inode_put-Dropped_example :
    (st : InodeState) × (inode_put one_inode 9 keeping ≡ some st)
    × Dropped one_inode 9 (leaves one_inode 9 keeping) st
inode_put-Dropped_example =
    inode_put-Dropped one_inode 9 keeping one_inode-IsConsistent one_unlocked
  where
    one_unlocked : (one_inode.inodes 9).i_lock ≡ false
    one_unlocked =
        unfold inode_get finish_get inode_alloc inode_hash allocated hashtable_lookup find_node
          hash_ptr hash_bytes replicate in
        refl

inode_get-put_example :
    (st : InodeState) × (inode_put one_inode 9 no_ops ≡ some st)
    × IsConsistent st
    × ((j : ℕ) → hashtable_lookup st.ht j ≡ hashtable_lookup empty_state.ht j)
inode_get-put_example =
    inode_get-put empty_state none 5 no_ops (some 9) true empty-IsConsistent.0 (omega arith)
      (λ p h. nothing_there p) refl refl (λ q h. absurd (nothing_there q 5 h)) one_inode 9 got_nine
  where
    got_nine : inode_get empty_state none 5 no_ops (some 9) true ≡ (one_inode, found 9)
    got_nine =
        unfold inode_get finish_get inode_alloc allocated hashtable_lookup find_node hash_ptr
          hash_bytes replicate in
        refl

abbrev writes : Inode → Inode × Result (Unit {0})
writes x = (x, ok tt)

abbrev writing : SuperOps
writing = record no_ops { write_inode = some writes }

abbrev cleaned : InodeState
cleaned = set_inode empty_state 9 (record (fresh_inode none) { i_state = 0 })

dirty_run :
    (st1 st2 : InodeState) × (inode_dirty cleaned 9 writing ≡ some st1)
    × (is_dirty (st1.inodes 9) ≡ true)
    × (inode_write st1 9 writing ≡ some (st2, (writes (st1.inodes 9)).1))
    × (is_dirty (st2.inodes 9) ≡ is_err (writes (st1.inodes 9)).1)
dirty_run = inode_dirty-write cleaned 9 writing writes refl (omega arith) refl refl (λ x. refl)

inode_alloc-write_example :
    (st : InodeState) × (inode_write (set_inode empty_state 9 (fresh_inode none)) 9 writing
      ≡ some (st, (writes (fresh_inode none)).1))
inode_alloc-write_example =
    inode_alloc-write empty_state (set_inode empty_state 9 (fresh_inode none)) none writing (some 9)
      9 writes (unfold inode_alloc allocated in refl) refl

truncate_waits : inode_truncate empty_state 9 writing ≡ none
truncate_waits = inode_truncate-stuck empty_state 9 writing
