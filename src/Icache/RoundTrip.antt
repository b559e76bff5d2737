-- ===== src/Icache/RoundTrip.antt =====
-- `inode_get` and then `inode_put` of the inode that it found.
use yu_noob_kernel.Base.{
  ℕ, ◌+◌, ◌^◌, ◌<◌, ◌≡◌, ◌≢◌, ◌⊎◌, inl, inr, refl, sym, ◌∙◌, arith, Bool, true, false, Bool-cases,
  ◌==◌, if◌then◌else◌, Option, none, some,
}
use yu_noob_kernel.HashTable.{hashtable_lookup}
use yu_noob_kernel.Icache.{
  Inode, InodeState, SuperOps, found, given, allocated, inode_get, inode_put,
}
use yu_noob_kernel.Icache.Inv.{IsConsistent}
use yu_noob_kernel.Icache.Get.{Gotten, Source, inode_get-GetOk}
use yu_noob_kernel.Icache.Put.{leaves, refs_left, inode_put-Dropped}

-- The lock of an inode is free, and its count of references can go up.
abbrev pub Usable : Inode → Type 0
Usable x = (x.i_lock ≡ false) × (0 < x.i_refcnt) × (x.i_refcnt + 1 < 2 ^ 32)

module _ (st st1 : InodeState) (ino p : ℕ) (ops : SuperOps) (node_mem : Bool)
    (k : Gotten st ino node_mem p st1) (frees : leaves st1 p ops ≡ (refs_left st1 p == 0)) where
  Restored : Type 0
  Restored =
      (st2 : InodeState) × (inode_put st1 p ops ≡ some st2)
      × IsConsistent st2
      × ((j : ℕ) → hashtable_lookup st2.ht j ≡ hashtable_lookup st.ht j)

  -- The inode was in the table: it keeps a reference.
  restored_cached :
      (q : ℕ)
      → hashtable_lookup st.ht ino ≡ some q
      → Source st p st1 (some q)
      → Usable (st.inodes q)
      → Restored
  unfolding Restored
  restored_cached q e (same, s) u =
      let at_p : Usable (st.inodes p) = rw same at u in
      let (st2, h, d) = inode_put-Dropped st1 p ops k.consistent (rw s at_p.0) in
      let stays : leaves st1 p ops ≡ false = rw (frees, s) (ground arith) in
      (st2, h, d.consistent, λ j. d.mapped j ∙ rw stays (kept j k.mapped (Bool-cases (ino == j))))
    where
      kept :
          (j : ℕ)
          → ((i : ℕ)
              → hashtable_lookup st1.ht i ≡ (if ino == i then some p else hashtable_lookup st.ht i))
            ⊎ ((node_mem ≡ false) × (st1.ht ≡ st.ht) × (hashtable_lookup st.ht ino ≡ none))
          → ((ino == j) ≡ true) ⊎ ((ino == j) ≡ false)
          → hashtable_lookup st1.ht j ≡ hashtable_lookup st.ht j
      kept j (inl m) (inl s) =
          let at_j : ino ≡ j = ground arith in m j ∙ rw (s, ← at_j) (sym (rw same at e))
      kept j (inl m) (inr s) = m j ∙ rw s refl
      kept j (inr m) s = rw m.1 refl

  -- The inode was made: it leaves the table again.
  restored_new : hashtable_lookup st.ht ino ≡ none → Source st p st1 none → Restored
  unfolding Restored
  restored_new e (one, lock) =
      let (st2, h, d) = inode_put-Dropped st1 p ops k.consistent lock in
      let goes : leaves st1 p ops ≡ true = rw (frees, one) refl in
      (
        st2,
        h,
        d.consistent,
        λ j. d.mapped j ∙ rw (goes, k.number) (without j k.mapped (Bool-cases (ino == j))),
      )
    where
      without :
          (j : ℕ)
          → ((i : ℕ)
              → hashtable_lookup st1.ht i ≡ (if ino == i then some p else hashtable_lookup st.ht i))
            ⊎ ((node_mem ≡ false) × (st1.ht ≡ st.ht) × (hashtable_lookup st.ht ino ≡ none))
          → ((ino == j) ≡ true) ⊎ ((ino == j) ≡ false)
          → (if ino == j then none else hashtable_lookup st1.ht j) ≡ hashtable_lookup st.ht j
      without j m (inl s) = let same : ino ≡ j = ground arith in rw (s, ← same) (sym e)
      without j (inl m) (inr s) = rw s (m j ∙ rw s refl)
      without j (inr m) (inr s) = rw (s, m.1) refl

  restored :
      (o : Option ℕ)
      → hashtable_lookup st.ht ino ≡ o
      → ((q : ℕ) → hashtable_lookup st.ht ino ≡ some q → Usable (st.inodes q))
      → Source st p st1 o
      → Restored
  restored (some q) e u s = restored_cached q e s (u q e)
  restored none e u s = restored_new e s

-- From a consistent state with fewer than 2^64 - 2 inodes in the table, `inode_get` of a number and then
-- `inode_put` of the inode that it found leaves a consistent state in which every number is mapped to
-- what it was mapped to before, whether the inode was in the table or not and whether there was memory
-- for a node. The file system has neither `destroy_inode` nor `drop_inode`, an inode that is allocated
-- is not one of the table, and an inode of that number in the table has a free lock and between 1 and
-- 2^32 - 2 references.
pub inode_get-put :
    (st : InodeState) (sb : Option ℕ) (ino : ℕ) (ops : SuperOps) (mem : Option ℕ) (node_mem : Bool)
    → IsConsistent st
    → st.ht.count + 2 < 2 ^ 64
    → ((p : ℕ) → allocated ops mem ≡ given p → (j : ℕ) → hashtable_lookup st.ht j ≢ some p)
    → ops.destroy_inode ≡ false
    → ops.drop_inode ≡ none
    → ((q : ℕ) → hashtable_lookup st.ht ino ≡ some q → Usable (st.inodes q))
    → (st1 : InodeState) (p : ℕ) → inode_get st sb ino ops mem node_mem ≡ (st1, found p)
    → (st2 : InodeState) × (inode_put st1 p ops ≡ some st2)
      × IsConsistent st2
      × ((j : ℕ) → hashtable_lookup st2.ht j ≡ hashtable_lookup st.ht j)
unfolding Restored
inode_get-put st sb ino ops mem node_mem i c f d n u st1 p h =
    let k : Gotten st ino node_mem p st1 =
      rw h at (inode_get-GetOk st sb ino ops mem node_mem i c f) in
    restored st st1 ino p ops node_mem k (rw (d, n) (ground arith)) (hashtable_lookup st.ht ino)
      refl u k.source
