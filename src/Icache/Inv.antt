-- ===== src/Icache/Inv.antt =====
-- The invariant of the inodes in memory.
use yu_noob_kernel.Base.{
  ℕ, ◌<◌, ◌≡◌, refl, subst, arith, Bool, ==_refl, here_or_else, [], none, some, occurs,
}
use yu_noob_kernel.Errno.{Result, ok, err}
use yu_noob_kernel.HashTable.{HashTable, hashtable_lookup, hashtable_init}
use yu_noob_kernel.HashTable.Map.{IsValid}
use yu_noob_kernel.HashTable.Laws.{hashtable_init_lem}
use yu_noob_kernel.Icache.{Inode, InodeState, set_inode, inode_init}

-- The table is well formed, an inode in it has the number under which it is found and is in the list.
pub record IsConsistent (st : InodeState) : Type 0 where
  pub table : IsValid st.ht
  pub named : (ino p : ℕ) → hashtable_lookup st.ht ino ≡ some p → (st.inodes p).i_ino ≡ ino
  pub listed : (ino p : ℕ) → hashtable_lookup st.ht ino ≡ some p → 0 < occurs p st.inode_list

-- A change of one inode that keeps its number.
pub set_inode-IsConsistent :
    (st : InodeState) (p : ℕ) (x : Inode)
    → x.i_ino ≡ (st.inodes p).i_ino
    → IsConsistent st
    → IsConsistent (set_inode st p x)
set_inode-IsConsistent st p x h i = record {
  table = i.table;
  named = λ ino.
      here_or_else p (λ e. rw (==_refl p, h) (i.named ino p e)) (λ q s e. rw s (i.named ino q e));
  listed = i.listed;
}

started :
    (inodes : ℕ → Inode) (mem : Bool) {st : InodeState} (r : Result (HashTable ℕ))
    → hashtable_init {V = ℕ} 64 mem ≡ r
    → inode_init inodes mem ≡ ok st
    → IsConsistent st × ((ino : ℕ) → hashtable_lookup st.ht ino ≡ none)
unfolding inode_init
started inodes mem {st} (err x) e h = absurd (ground (arith, rw (e, inode_init) at h))
started inodes mem {st} (ok ht) e h =
    let made : ok (record { ht = ht; inodes = inodes; inode_list = []; count = 0 }) ≡ ok st =
      rw (e, inode_init) at h in
    let same : record { ht = ht; inodes = inodes; inode_list = []; count = 0 } ≡ st = cc made in
    let (v, _, n) = hashtable_init_lem 64 mem e in
    subst (λ s. IsConsistent s × ((ino : ℕ) → hashtable_lookup s.ht ino ≡ none)) same
      (
        record {
          table = v;
          named = λ ino p f. absurd (ground (arith, n ino, f));
          listed = λ ino p f. absurd (ground (arith, n ino, f));
        },
        n,
      )

pub inode_init-IsConsistent :
    (inodes : ℕ → Inode) (mem : Bool) {st : InodeState}
    → inode_init inodes mem ≡ ok st
    → IsConsistent st × ((ino : ℕ) → hashtable_lookup st.ht ino ≡ none)
inode_init-IsConsistent inodes mem {st} h =
    started inodes mem (hashtable_init {V = ℕ} 64 mem) refl h
